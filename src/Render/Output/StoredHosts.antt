-- ===== src/Render/Output/StoredHosts.antt =====
-- The hosts of a document of scripts/render-topology.py in topology.json.
use Prim.Native.String.{String}
use pulsaros_testbed.Prelude.{
  [], ◌∷◌, some, Dict, get, ◌==◌, eq_iff, if◌then◌else◌, ◌≡◌, refl, ap, ◌∙◌, arith, Bool-cases, inl,
  inr,
}
use pulsaros_testbed.Order.{insert_entry}
use pulsaros_testbed.Render.Hosts.{Host}
use pulsaros_testbed.Render.Topology.{Resolved}
use pulsaros_testbed.Render.Output.Stored.{sort_dict, stored_host, stored}

get-insert_entry {ℓ} :
    {A : Type ℓ} (name k : String) (a : A) (d : Dict A)
    → get name (insert_entry k a d) ≡ (if k == name then some a else get name d)
unfolding get insert_entry
get-insert_entry name k a [] = ground arith
get-insert_entry name k a ((j, b) ∷ d) =
    ground (arith, get-insert_entry name k a d, eq_iff j k, eq_iff j name, eq_iff k name)

one_value {ℓ} : {A : Type ℓ} {a b : A} → some a ≡ some b → a ≡ b
one_value h = cc

get-sort_dict {ℓ} :
    {A : Type ℓ} (f : A → A) (name : String) (d : Dict A) (a : A)
    → get name d ≡ some a
    → get name (sort_dict f d) ≡ some (f a)
unfolding get sort_dict
get-sort_dict f name [] a h = ground arith
get-sort_dict f name ((k, b) ∷ d) a h = elim (Bool-cases (k == name)) [
  | inl here ↦
      get-insert_entry name k (f b) (sort_dict f d)
      ∙ rw here (ap (λ x. some (f x)) (one_value (rw here at h)))
  | inr later ↦
      get-insert_entry name k (f b) (sort_dict f d)
      ∙ rw later (get-sort_dict f name d a (rw later at h))
]

-- Every host of a document is in another, with its name, its VM id and its VM name.
abbrev pub KeepsHosts : Resolved → Resolved → Type 0
KeepsHosts document file =
    (name : String) (h : Host)
    → get name document.hosts ≡ some h
    → (g : Host) × (get name file.hosts ≡ some g)
      × (g.name ≡ h.name)
      × (g.vmid ≡ h.vmid)
      × (g.vm_name ≡ h.vm_name)

pub stored-KeepsHosts : (document : Resolved) → KeepsHosts document (stored document)
unfolding stored stored_host
stored-KeepsHosts document name h found =
    (stored_host h, get-sort_dict stored_host name document.hosts h found, refl, refl, refl)
