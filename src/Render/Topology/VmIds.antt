-- ===== src/Render/Topology/VmIds.antt =====
-- The VM ids of a resolved document.
use Prim.Native.String.{String, ◌++◌}
use pulsaros_testbed.Prelude.{
  ℕ, [], ◌∷◌, ◌≡◌, ◌⊎◌, inl, inr, refl, ap, arith, ok, die_if, not, >>=-elim, ok-injective, All,
  Dict, put, values, subst, Bool-cases, ◌==◌, map,
}
use pulsaros_testbed.Number.{ℤ, pos, ◌+ℤ◌}
use pulsaros_testbed.Text.{is_name}
use pulsaros_testbed.Value.{
  Value, null, bool, int, float, str, nil, list, dict, as_dict, to_int, get_field, get_or, iterate,
  Fields, end, field,
}
use pulsaros_testbed.Render.Unique.{validate_unique}
use pulsaros_testbed.Render.Hosts.{Network, Host, Hosts}
use pulsaros_testbed.Render.Topology.Build.{
  Run, base, build_nics, build_host, build_hosts, previous_ip,
}

-- A mapping has the entry.
unfoldable pub Declares : String → Value → Fields → Type 0
Declares name v end = ⊥
Declares name v (field k w fs) = ((k ≡ name) × (w ≡ v)) ⊎ Declares name v fs

-- A host of the document is declared in the file, and its VM id is the offset there and the base.
pub record Numbered (base : ℕ) (raw : Fields) (h : Host) : Type 0 where
  pub entry : Fields
  pub declared : Declares h.name (dict entry) raw
  pub offset : ℤ
  pub offset_read : to_int (get_field "vmid_offset" entry) ≡ ok offset
  pub numbered : h.vmid ≡ pos base +ℤ offset

as_dict-lem : (v : Value) (fs : Fields) → as_dict v ≡ ok fs → v ≡ dict fs
unfolding as_dict
as_dict-lem (dict gs) fs h = ap dict (ok-injective h)
as_dict-lem null fs h = ground arith
as_dict-lem (bool b) fs h = ground arith
as_dict-lem (int z) fs h = ground arith
as_dict-lem (float z k) fs h = ground arith
as_dict-lem (str s) fs h = ground arith
as_dict-lem (list vs) fs h = ground arith

build_host-Numbered :
    (run : Run) (networks : Dict Network) (previous : Value) (name : String) (v : Value) (h : Host)
    (raw : Fields)
    → build_host run networks previous name v ≡ ok h
    → Declares name v raw
    → Numbered (base run) raw h
unfolding build_host
build_host-Numbered run networks previous name v h raw e0 declared =
    >>=-elim (die_if (not (is_name name)) ("invalid host name: " ++ name)) _ e0 λ _ _ e1.
      >>=-elim (as_dict v) _ e1 λ fs q e2.
        >>=-elim (to_int (get_field "vmid_offset" fs)) _ e2 λ offset read e3.
          >>=-elim (iterate (get_or "nics" (list nil) fs)) _ e3 λ vs _ e4.
            >>=-elim (build_nics run networks name vs) _ e4 λ nics _ e5.
              >>=-elim (validate_unique (map (λ n. n.name) nics) (name ++ " nic name")) _ e5
                λ _ _ e6. >>=-elim (previous_ip previous name) _ e6 λ ip _ done.
                  subst (Numbered (base run) raw) (ok-injective done) (record {
                    entry = fs;
                    declared = subst (λ w. Declares name w raw) (as_dict-lem v fs q) declared;
                    offset = offset;
                    offset_read = read;
                    numbered = refl;
                  })

All-put :
    (P : Host → Type 0) (k : String) (h : Host) (d : Hosts)
    → P h
    → All P (values d)
    → All P (values (put k h d))
unfolding values put
All-put P k h [] a b = (a, tt)
All-put P k h ((j, g) ∷ d) a b = elim (Bool-cases (j == k)) [
  | inl same ↦ rw (put, same) (a, b.1)
  | inr other ↦ rw (put, other) (b.0, All-put P k h d a b.1)
]

pub build_hosts-Numbered :
    (run : Run) (networks : Dict Network) (previous : Value) (raw : Fields) (d : Hosts)
    (fs : Fields) (r : Hosts)
    → ((name : String) (v : Value) → Declares name v fs → Declares name v raw)
    → All (Numbered (base run) raw) (values d)
    → build_hosts run networks previous d fs ≡ ok r
    → All (Numbered (base run) raw) (values r)
unfolding build_hosts Declares
build_hosts-Numbered run networks previous raw d end r inside before h =
    subst (λ d. All (Numbered (base run) raw) (values d)) (ok-injective h) before
build_hosts-Numbered run networks previous raw d (field name v fs) r inside before h =
    >>=-elim (build_host run networks previous name v) _ h λ g built rest.
      let here =
        build_host-Numbered run networks previous name v g raw built
          (inside name v (inl (refl, refl))) in
      build_hosts-Numbered run networks previous raw (put name g d) fs r
        (λ n w k. inside n w (inr k)) (All-put (Numbered (base run) raw) name g d here before) rest
