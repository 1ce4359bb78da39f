-- ===== src/Render/Output/Addresses.antt =====
-- The addresses behind `cmd_update_ips` and `cmd_ansible` of scripts/render-topology.py.
use Prim.Native.String.{String}
use pulsaros_testbed.Prelude.{
  List, [], ◌∷◌, Bool, true, false, ◌==◌, eq_iff, Option, none, some, ◌≡◌, ◌↔◌, refl, sym, ◌∙◌, ap,
  arith, ok, if◌then◌else◌, get, get-put, values, loop, All, >>=-elim, ok-injective,
}
use pulsaros_testbed.Text.{before, after}
use pulsaros_testbed.Value.{Value, str, truthy}
use pulsaros_testbed.Render.Hosts.{Host, Hosts}
use pulsaros_testbed.Render.Output.Defs.{
  set_address, update_ip, update_ips, missing_from, require_ips,
}

-- The address that the items give to a host, from the one that it has: each item that names the host
-- replaces it.
unfoldable pub address_from : String → List String → Value → Value
address_from name [] ip = ip
address_from name (item ∷ rest) ip = address_from name rest (elim (after b'=' item) [
  | none ↦ ip
  | some new ↦ if before b'=' item == name then str new else ip
])

-- The host with all its fields but the address.
abbrev pub at_address : Value → Host → Host
at_address ip h = record {
  name = h.name;
  vmid = h.vmid;
  vm_name = h.vm_name;
  groups = h.groups;
  nics = h.nics;
  ansible_vars = h.ansible_vars;
  management_ip = ip;
}

abbrev given : String → String → Host → Host
given name item h = elim (after b'=' item) [
  | none ↦ h
  | some ip ↦ if before b'=' item == name then at_address (str ip) h else h
]

abbrev pub mapped : (Host → Host) → Option Host → Option Host
mapped f none = none
mapped f (some h) = some (f h)

update_ip-cases :
    (hosts r : Hosts) (item name : String) (address : Option String) (old : Option Host)
    → after b'=' item ≡ address
    → get (before b'=' item) hosts ≡ old
    → update_ip hosts item ≡ ok r
    → get name r ≡ mapped (given name item) (get name hosts)
unfolding update_ip set_address
update_ip-cases hosts r item name none old p q h = ground arith
update_ip-cases hosts r item name (some ip) none p q h = ground arith
update_ip-cases hosts r item name (some ip) (some host) p q h =
    let placed = get-put (before b'=' item) name (set_address ip host) hosts in
    ground (arith, eq_iff (before b'=' item) name)

update_ip-lem :
    (hosts r : Hosts) (item name : String)
    → update_ip hosts item ≡ ok r
    → get name r ≡ mapped (given name item) (get name hosts)
update_ip-lem hosts r item name h =
    update_ip-cases hosts r item name (after b'=' item) (get (before b'=' item) hosts) refl refl h

mapped-mapped :
    (f g : Host → Host) (o : Option Host) → mapped f (mapped g o) ≡ mapped (λ h. f (g h)) o
mapped-mapped f g none = refl
mapped-mapped f g (some h) = refl

mapped-cong :
    (f g : Host → Host) (o : Option Host) → ((h : Host) → f h ≡ g h) → mapped f o ≡ mapped g o
mapped-cong f g none e = refl
mapped-cong f g (some h) e = ap some (e h)

mapped-same : (o : Option Host) → o ≡ mapped (λ h. at_address h.management_ip h) o
mapped-same none = refl
mapped-same (some h) = refl

-- One item in front of others; `o` is its address, and `named` whether it names the host.
one_item :
    (name : String) (rest : List String) (h : Host) (o : Option String) (named : Bool)
    → (let new : Host = elim o [
      | none ↦ h
      | some ip ↦ if named then at_address (str ip) h else h
    ] in
        at_address (address_from name rest new.management_ip) new)
      ≡ at_address
          (address_from name rest (elim o [
            | none ↦ h.management_ip
            | some ip ↦ if named then str ip else h.management_ip
          ]))
          h
one_item name rest h none named = refl
one_item name rest h (some ip) true = refl
one_item name rest h (some ip) false = refl

given-first :
    (name item : String) (rest : List String) (h : Host)
    → at_address (address_from name rest (given name item h).management_ip) (given name item h)
      ≡ at_address (address_from name (item ∷ rest) h.management_ip) h
unfolding address_from
given-first name item rest h = one_item name rest h (after b'=' item) (before b'=' item == name)

update_ips-from :
    (hosts r : Hosts) (items : List String) (name : String)
    → loop update_ip hosts items ≡ ok r
    → get name r
      ≡ mapped (λ h. at_address (address_from name items h.management_ip) h) (get name hosts)
unfolding loop address_from
update_ips-from hosts r [] name h =
    ap (get name) (sym (ok-injective h)) ∙ mapped-same (get name hosts)
update_ips-from hosts r (item ∷ rest) name h = >>=-elim (update_ip hosts item) _ h λ next q later.
    update_ips-from next r rest name later
    ∙ ap (mapped (λ h. at_address (address_from name rest h.management_ip) h))
        (update_ip-lem hosts next item name q)
    ∙ mapped-mapped _ (given name item) (get name hosts)
    ∙ mapped-cong _ _ (get name hosts) (given-first name item rest)

-- When the loop of `cmd_update_ips` succeeds, every name that had a host has that host, with every
-- field but the address kept and the address of the last item that names it, or its own where none
-- does, and every name that had none has none.
pub update_ips-readdressed :
    (hosts r : Hosts) (items : List String) (name : String)
    → update_ips hosts items ≡ ok r
    → get name r
      ≡ mapped (λ h. at_address (address_from name items h.management_ip) h) (get name hosts)
unfolding update_ips
update_ips-readdressed hosts r items name h = update_ips-from hosts r items name h

missing_iff :
    (hs : List Host) → (missing_from hs ≡ []) ↔ All (λ h. truthy h.management_ip ≡ true) hs
unfolding missing_from
missing_iff [] = ((λ _. tt), (λ _. refl))
missing_iff (h ∷ hs) = let (there, back) = missing_iff hs in ground arith

-- The test of `cmd_ansible` passes exactly when the address of every host is true in the sense of
-- Python.
pub require_ips_iff :
    (hosts : Hosts)
    → (require_ips hosts ≡ ok tt) ↔ All (λ h. truthy h.management_ip ≡ true) (values hosts)
unfolding require_ips
require_ips_iff hosts = ground (arith, missing_iff (values hosts))
