-- ===== src/Render/Segments/Vnis.antt =====
-- The VNIs of the resolved segments are those that the validator found to differ.
use Prim.Native.String.{String}
use mathlib.Core.List.{append-nil, append_assoc}
use pulsaros_testbed.Prelude.{
  List, [], ◌∷◌, ◌++◌, false, ◌||◌, ◌==◌, ◌≡◌, ◌≢◌, refl, sym, ◌∙◌, ap, subst, arith, ok, All,
  AllPairs, put, has, values, map, snoc, >>=-elim, ok-injective, Dict,
}
use pulsaros_testbed.Number.{ℤ}
use pulsaros_testbed.Value.{
  Value, null, bool, int, float, str, list, dict, Fields, end, field, value_eq,
}
use pulsaros_testbed.Render.Unique.{validate_unique}
use pulsaros_testbed.Render.Unique.Exact.{Distinct, validate_unique-Distinct}
use pulsaros_testbed.Render.Hosts.{Hosts}
use pulsaros_testbed.Render.Segments.Validate.{
  SegmentState, validate_segment, segments_from, validate_segments, no_segments,
}
use pulsaros_testbed.Render.Segments.Passed.{GoodSegments, validate_segment-GoodSegment}
use pulsaros_testbed.Render.Segments.Resolve.{
  Segment, Segments, resolve_segment, resolve_from, resolve_segments,
}
use pulsaros_testbed.Render.Segments.WellFormed.{
  IsWellFormed, resolve_segment-IsWellFormed, int-value_eq,
}

abbrev names_of : Fields → List String
names_of end = []
names_of (field name v fs) = name ∷ names_of fs

module _ (hosts : Hosts) where
  abbrev vnis_of : (fs : Fields) → GoodSegments hosts fs → List ℤ
  vnis_of end g = []
  vnis_of (field name v fs) g = g.0.vni ∷ vnis_of fs g.1

  validate_segment-names :
      (s t : SegmentState) (name : String) (v : Value)
      → validate_segment hosts s name v ≡ ok t
      → t.names ≡ snoc s.names (str name)
  unfolding validate_segment
  validate_segment-names s t name v h = ground arith

  -- What the loop over the segments has collected at its end.
  segments_from-lem :
      (s t : SegmentState) (fs : Fields)
      → segments_from hosts s fs ≡ ok t
      → (g : GoodSegments hosts fs) × (t.vnis ≡ s.vnis ++ map int (vnis_of fs g))
        × (t.names ≡ s.names ++ map str (names_of fs))
  unfolding segments_from
  segments_from-lem s t end h =
      let same : s ≡ t = ok-injective h in
      (
        tt,
        ap (λ (x : SegmentState). x.vnis) (sym same) ∙ sym (append-nil s.vnis),
        ap (λ (x : SegmentState). x.names) (sym same) ∙ sym (append-nil s.names),
      )
  segments_from-lem s t (field name v fs) h =
      >>=-elim (validate_segment hosts s name v) _ h λ s' q rest.
        let (g, snocced) = validate_segment-GoodSegment hosts s s' name v q in
        let (gs, vnis, names) = segments_from-lem s' t fs rest in
        (
          (g, gs),
          vnis
              ∙ ap (λ l. l ++ map int (vnis_of fs gs)) snocced
              ∙ append_assoc s.vnis (int g.vni ∷ []) (map int (vnis_of fs gs)),
          names
              ∙ ap (λ l. l ++ map str (names_of fs)) (validate_segment-names s s' name v q)
              ∙ append_assoc s.names (str name ∷ []) (map str (names_of fs)),
        )

put-fresh :
    {V : Type 0} (k : String) (v : V) (d : Dict V) → has k d ≡ false → put k v d ≡ d ++ (k, v) ∷ []
unfolding put has
put-fresh k v [] h = refl
put-fresh k v ((j, w) ∷ d) h = ground (arith, put-fresh k v d)

has-snoc :
    {V : Type 0} (n k : String) (v : V) (d : Dict V)
    → has n (d ++ (k, v) ∷ []) ≡ (has n d || k == n)
unfolding has
has-snoc n k v [] = ground arith
has-snoc n k v ((j, w) ∷ d) = ground (arith, has-snoc n k v d)

-- No name of the list is a key.
abbrev Fresh : {V : Type 0} → Dict V → List String → Type 0
Fresh d ns = All (λ n. has n d ≡ false) ns

Fresh-snoc :
    {V : Type 0} (k : String) (v : V) (d : Dict V) (ns : List String)
    → Fresh d ns
    → All (λ w. value_eq (str k) w ≡ false) (map str ns)
    → Fresh (d ++ (k, v) ∷ []) ns
unfolding value_eq
Fresh-snoc k v d [] h a = tt
Fresh-snoc k v d (n ∷ ns) h a = (ground (arith, has-snoc n k v d), Fresh-snoc k v d ns h.1 a.1)

module _ (hosts : Hosts) where
  from-lem :
      (d r : Segments) (fs : Fields) (g : GoodSegments hosts fs)
      → Fresh d (names_of fs)
      → Distinct (map str (names_of fs))
      → resolve_from hosts d fs ≡ ok r
      → (rest : Segments) × (r ≡ d ++ rest)
        × All IsWellFormed (values rest)
        × (map (λ s. s.vni) (values rest) ≡ vnis_of hosts fs g)
  unfolding resolve_from values
  from-lem d r end g f n h = ([], sym (ok-injective h) ∙ sym (append-nil d), tt, refl)
  from-lem d r (field name v fs) g f n h =
      >>=-elim (resolve_segment hosts name v) _ h λ s q rest_resolved.
        let grown = put-fresh name s d f.0 in
        let (rest, shape, good, vnis) =
          from-lem (d ++ (name, s) ∷ []) r fs g.1 (Fresh-snoc name s d (names_of fs) f.1 n.0) n.1
            (subst (λ x. resolve_from hosts x fs ≡ ok r) grown rest_resolved) in
        let (vni, well) = resolve_segment-IsWellFormed hosts name v g.0 s q in
        (
          (name, s) ∷ rest,
          shape ∙ append_assoc d ((name, s) ∷ []) rest,
          (well, good),
          ground (
            arith,
            ap (λ (x : ℤ). x ∷ map (λ (y : Segment). y.vni) (values rest)) vni,
            ap (λ (l : List ℤ). g.0.vni ∷ l) vnis,
          ),
        )

  Fresh-nil : (ns : List String) → Fresh {V = Segment} [] ns
  unfolding has
  Fresh-nil [] = tt
  Fresh-nil (n ∷ ns) = (refl, Fresh-nil ns)

ints-apart :
    (z : ℤ) (zs : List ℤ) → All (λ w. value_eq (int z) w ≡ false) (map int zs) → All (◌≢◌ z) zs
ints-apart z [] h = tt
ints-apart z (y ∷ ys) h = (int-value_eq z y h.0, ints-apart z ys h.1)

ints-AllPairs : (zs : List ℤ) → Distinct (map int zs) → AllPairs ◌≢◌ zs
ints-AllPairs [] h = tt
ints-AllPairs (z ∷ zs) h = (ints-apart z zs h.0, ints-AllPairs zs h.1)

-- The resolved segments of a mapping that `validate_segments` passed: each is well formed, and no
-- two have one VNI.
pub record AreWellFormed (segments : Segments) : Type 0 where
  pub each_good : All IsWellFormed (values segments)
  pub vnis_differ : AllPairs ◌≢◌ (map (λ s. s.vni) (values segments))

abbrev nothing : AreWellFormed []
nothing = record { each_good = unfold values in tt; vnis_differ = unfold values in tt }

pub resolve_segments-AreWellFormed :
    (hosts : Hosts) (v : Value) (fs : Fields) (r : Segments)
    → validate_segments hosts v ≡ ok fs
    → resolve_segments hosts fs ≡ ok r
    → AreWellFormed r
unfolding validate_segments resolve_segments resolve_from
resolve_segments-AreWellFormed hosts null fs r h k =
    subst AreWellFormed
      (ok-injective (subst (λ x. resolve_from hosts [] x ≡ ok r) (sym (ok-injective h)) k)) nothing
resolve_segments-AreWellFormed hosts (dict end) fs r h k =
    subst AreWellFormed
      (ok-injective (subst (λ x. resolve_from hosts [] x ≡ ok r) (sym (ok-injective h)) k)) nothing
resolve_segments-AreWellFormed hosts (dict (field name v gs)) fs r h k =
    >>=-elim (segments_from hosts no_segments (field name v gs)) _ h λ s q e1.
      >>=-elim (validate_unique s.names "segment name") _ e1 λ _ names_ok e2.
        >>=-elim (validate_unique s.vnis "segment vni") _ e2 λ _ vnis_ok e3.
          let (g, vnis, names) = segments_from-lem hosts no_segments s (field name v gs) q in
          let same : fs ≡ field name v gs = sym (ok-injective e3) in
          let (rest, shape, good, numbers) =
            from-lem hosts [] r (field name v gs) g (Fresh-nil hosts (names_of (field name v gs)))
              (subst Distinct names (validate_unique-Distinct s.names _ names_ok))
              (subst (λ x. resolve_from hosts [] x ≡ ok r) same k) in
          subst AreWellFormed (sym shape) (record {
            each_good = good;
            vnis_differ = subst (AllPairs ◌≢◌) (sym numbers) (
                ints-AllPairs (vnis_of hosts (field name v gs) g)
                  (subst Distinct vnis (validate_unique-Distinct s.vnis _ vnis_ok)));
          })
resolve_segments-AreWellFormed hosts (bool b) fs r h k = ground arith
resolve_segments-AreWellFormed hosts (int z) fs r h k = ground arith
resolve_segments-AreWellFormed hosts (float z i) fs r h k = ground arith
resolve_segments-AreWellFormed hosts (str s) fs r h k = ground arith
resolve_segments-AreWellFormed hosts (list vs) fs r h k = ground arith
