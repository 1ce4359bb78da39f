-- ===== src/Render/Output/Groups.antt =====
-- Which hosts `write_inventory` of scripts/render-topology.py puts under a group.
use Prim.Native.String.{String}
use pulsaros_testbed.Prelude.{
  Bool, true, false, List, [], ◌∷◌, extend, snoc, Option, none, some, Exception, ok, die, raise,
  ◌≡◌, refl, sym, ap, ◌∙◌, arith, eq_iff, eq_refl, ◌==◌, if◌then◌else◌, Bool-cases, Option-cases,
  inl, inr, >>=-elim, ok-injective,
}
use mathlib.Core.Bool.{true≢false}
use mathlib.Core.List.{append-nil, append_assoc}
use pulsaros_testbed.Value.{
  Value, null, bool, int, float, str, list, dict, value_eq, text_lt, hashable, iterate, same_number,
  number_of,
}
use pulsaros_testbed.Render.Hosts.{Host}
use pulsaros_testbed.Render.Output.Inventory.{
  Grouped, key_lt, insert_group, sorted_groups, add_member, add_host, group_hosts,
}

-- The hosts under a name.
unfoldable pub members : String → Grouped → List Host
members s [] = []
members s ((g, hs) ∷ groups) = if value_eq g (str s) then hs else members s groups

-- A host once for each time that it names the group.
unfoldable pub times : String → Host → List Value → List Host
times s host [] = []
times s host (v ∷ vs) = if value_eq v (str s) then host ∷ times s host vs else times s host vs

-- The hosts that name the group, in their order.
unfoldable pub naming : String → List Host → List Host
naming s [] = []
naming s (h ∷ hosts) = elim (iterate h.groups) [
  | ok vs ↦ extend (times s h vs) (naming s hosts)
  | die message ↦ []
  | raise e ↦ []
]

-- The text that a value is.
abbrev text_of : Value → Option String
text_of (str t) = some t
text_of _ = none

named_by : String → Option String → Bool
named_by s none = false
named_by s (some t) = t == s

value_eq-str : (v : Value) (s : String) → value_eq v (str s) ≡ named_by s (text_of v)
unfolding value_eq named_by same_number number_of
value_eq-str null s = refl
value_eq-str (bool b) s = refl
value_eq-str (int z) s = refl
value_eq-str (float z k) s = refl
value_eq-str (str t) s = refl
value_eq-str (list vs) s = refl
value_eq-str (dict fs) s = refl

str-value_eq : (t : String) (v : Value) → value_eq (str t) v ≡ named_by t (text_of v)
unfolding value_eq named_by
str-value_eq t null = refl
str-value_eq t (bool b) = refl
str-value_eq t (int z) = refl
str-value_eq t (float z k) = refl
str-value_eq t (str u) = ground (arith, eq_iff t u, eq_iff u t)
str-value_eq t (list vs) = refl
str-value_eq t (dict fs) = refl

text_of-str : (v : Value) (t : String) → text_of v ≡ some t → v ≡ str t
text_of-str null t h = absurd (cc)
text_of-str (bool b) t h = absurd (cc)
text_of-str (int z) t h = absurd (cc)
text_of-str (float z k) t h = absurd (cc)
text_of-str (str u) t h = cc
text_of-str (list vs) t h = absurd (cc)
text_of-str (dict fs) t h = absurd (cc)

named_by-some : (s : String) (o : Option String) → named_by s o ≡ true → o ≡ some s
unfolding named_by
named_by-some s none h = absurd (cc)
named_by-some s (some t) h = ap some ((eq_iff t s).0 h)

-- Values that are equal are both a text, or neither is.
same_text : (g v : Value) → value_eq g v ≡ true → text_of g ≡ text_of v
same_text g v h = elim (Option-cases (text_of g)) [
  | inr (t, is_t) ↦
      is_t
      ∙ sym (
          named_by-some t (text_of v)
            (sym (str-value_eq t v) ∙ ap (λ x. value_eq x v) (sym (text_of-str g t is_t)) ∙ h))
  | inl no_text ↦ elim (Option-cases (text_of v)) [
    | inl none' ↦ no_text ∙ sym none'
    | inr (t, is_t) ↦
        named_by-some t (text_of g)
          (sym (value_eq-str g t) ∙ ap (value_eq g) (sym (text_of-str v t is_t)) ∙ h)
        ∙ sym is_t
  ]
]

is_text : (v : Value) (s : String) → value_eq v (str s) ≡ true → v ≡ str s
is_text v s h = text_of-str v s (named_by-some s (text_of v) (sym (value_eq-str v s) ∙ h))

-- A value that is the text is equal to each that is.
both_text :
    (g v : Value) (s : String)
    → value_eq g (str s) ≡ true
    → value_eq v (str s) ≡ true
    → value_eq g v ≡ true
both_text g v s p q = ap (value_eq g) (is_text v s q) ∙ p

members-add_member :
    (s : String) (v : Value) (host : Host) (groups : Grouped)
    → members s (add_member v host groups)
      ≡ (if value_eq v (str s) then snoc (members s groups) host else members s groups)
unfolding members add_member
members-add_member s v host [] = refl
members-add_member s v host ((g, hs) ∷ groups) = elim (Bool-cases (value_eq g v)) [
  | inl one ↦
      let same : value_eq g (str s) ≡ value_eq v (str s) =
        value_eq-str g s ∙ ap (named_by s) (same_text g v one) ∙ sym (value_eq-str v s) in
      elim (Bool-cases (value_eq v (str s))) [
        | inl named ↦ rw (add_member, one, members, same, named) refl
        | inr other ↦ rw (add_member, one, members, same, other) refl
      ]
  | inr two ↦ elim (Bool-cases (value_eq g (str s))) [
    | inl mine ↦ elim (Bool-cases (value_eq v (str s))) [
      | inl named ↦ absurd (true≢false (sym (both_text g v s mine named) ∙ two))
      | inr other ↦ rw (add_member, two, members, mine, other) refl
    ]
    | inr theirs ↦ rw (add_member, two, members, theirs) (members-add_member s v host groups)
  ]
]

raised {ℓ} : {A : Type ℓ} {e : Exception} {a : A} → raise e ≡ ok a → ⊥
raised h = cc

members-add_host :
    (s : String) (host : Host) (vs : List Value) (groups r : Grouped)
    → add_host host vs groups ≡ ok r
    → members s r ≡ extend (members s groups) (times s host vs)
unfolding add_host times
members-add_host s host [] groups r h =
    ap (members s) (sym (ok-injective h)) ∙ sym (append-nil (members s groups))
members-add_host s host (v ∷ vs) groups r h = elim (Bool-cases (hashable v)) [
  | inr no_hash ↦ absurd (raised (rw no_hash at h))
  | inl hash ↦
      let later = members-add_host s host vs (add_member v host groups) r (rw hash at h) in
      let here = members-add_member s v host groups in
      elim (Bool-cases (value_eq v (str s))) [
        | inl named ↦
            let here' : members s (add_member v host groups) ≡ snoc (members s groups) host =
              here ∙ rw named refl in
            rw (times, named)
              (later
                ∙ ap (λ l. extend l (times s host vs)) here'
                ∙ append_assoc (members s groups) (host ∷ []) (times s host vs))
        | inr other ↦
            let here' : members s (add_member v host groups) ≡ members s groups =
              here ∙ rw other refl in
            rw (times, other) (later ∙ ap (λ l. extend l (times s host vs)) here')
      ]
]

members-group_hosts :
    (s : String) (hosts : List Host) (groups r : Grouped)
    → group_hosts hosts groups ≡ ok r
    → members s r ≡ extend (members s groups) (naming s hosts)
unfolding group_hosts naming
members-group_hosts s [] groups r h =
    ap (members s) (sym (ok-injective h)) ∙ sym (append-nil (members s groups))
members-group_hosts s (host ∷ hosts) groups r h =
    >>=-elim (iterate host.groups) _ h λ names q later.
      >>=-elim (add_host host names groups) _ later λ grown q' rest.
        let first = members-add_host s host names groups grown q' in
        let behind = members-group_hosts s hosts grown r rest in
        rw (naming, q)
          (behind
            ∙ ap (λ l. extend l (naming s hosts)) first
            ∙ append_assoc (members s groups) (times s host names) (naming s hosts))

group_hosts-naming :
    (s : String) (hosts : List Host) (groups : Grouped)
    → group_hosts hosts [] ≡ ok groups
    → members s groups ≡ naming s hosts
unfolding members
group_hosts-naming s hosts groups h = members-group_hosts s hosts [] groups h

not_below_itself : (s : String) (b : Bool) → key_lt (str s) (str s) ≡ ok b → b ≡ false
unfolding key_lt text_lt
not_below_itself s b h = ground (arith, eq_refl s)

members-insert_group :
    (s : String) (group : Value) (hs : List Host) (groups r : Grouped)
    → insert_group group hs groups ≡ ok r
    → members s r ≡ (if value_eq group (str s) then hs else members s groups)
unfolding insert_group members
members-insert_group s group hs [] r h = ap (members s) (sym (ok-injective h))
members-insert_group s group hs ((g, gs) ∷ groups) r h =
    >>=-elim (key_lt g group) _ h λ behind compared later. elim (Bool-cases behind) [
      | inr front ↦ ap (members s) (sym (ok-injective (rw front at later)))
      | inl back ↦ >>=-elim (insert_group group hs groups) _ (rw back at later) λ rest inserted end.
          let shape = ap (members s) (sym (ok-injective end)) in
          let inner = members-insert_group s group hs groups rest inserted in
          elim (Bool-cases (value_eq g (str s))) [
            | inr theirs ↦ shape ∙ rw (members, theirs) inner
            | inl mine ↦ elim (Bool-cases (value_eq group (str s))) [
              | inr other ↦ shape ∙ rw (members, mine, other) refl
              | inl same ↦
                  let at_itself : key_lt (str s) (str s) ≡ ok behind =
                    ap (λ x. key_lt x (str s)) (sym (is_text g s mine))
                    ∙ ap (key_lt g) (sym (is_text group s same))
                    ∙ compared in
                  absurd (true≢false (sym back ∙ not_below_itself s behind at_itself))
            ]
          ]
    ]

members-sorted_groups :
    (s : String) (groups r : Grouped) → sorted_groups groups ≡ ok r → members s r ≡ members s groups
unfolding sorted_groups members
members-sorted_groups s [] r h = ap (members s) (sym (ok-injective h))
members-sorted_groups s ((g, hs) ∷ groups) r h = >>=-elim (sorted_groups groups) _ h λ rest q later.
    let first = members-insert_group s g hs rest r later in
    let behind = members-sorted_groups s groups rest q in
    elim (Bool-cases (value_eq g (str s))) [
      | inl mine ↦ first ∙ rw (members, mine) refl
      | inr theirs ↦ first ∙ rw (members, theirs) behind
    ]

-- When `write_inventory` has grouped and sorted, the hosts under a group with a text as its name
-- are those whose groups have that name, in the order of the hosts, and once for each time.
pub sorted_groups-naming :
    (s : String) (hosts : List Host) (groups sorted : Grouped)
    → group_hosts hosts [] ≡ ok groups
    → sorted_groups groups ≡ ok sorted
    → members s sorted ≡ naming s hosts
sorted_groups-naming s hosts groups sorted h k =
    members-sorted_groups s groups sorted k ∙ group_hosts-naming s hosts groups h
