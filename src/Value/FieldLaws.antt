-- ===== src/Value/FieldLaws.antt =====
-- Laws of the mappings.
use Prim.Native.String.{String}
use pulsaros_testbed.Prelude.{none, some, ◌≡◌, refl, arith, ◌==◌, eq_iff, if◌then◌else◌}
use pulsaros_testbed.Value.Defs.{Value, Fields, end, field, field?}
use pulsaros_testbed.Value.Access.{put_field, without_field}

pub field?-put_field :
    (k j : String) (v : Value) (fs : Fields)
    → field? j (put_field k v fs) ≡ (if k == j then some v else field? j fs)
unfolding field? put_field
field?-put_field k j v end = refl
field?-put_field k j v (field i w fs) =
    ground (arith, eq_iff k j, eq_iff i k, eq_iff i j, field?-put_field k j v fs)

pub field?-without_field :
    (k j : String) (fs : Fields)
    → field? j (without_field k fs) ≡ (if k == j then none else field? j fs)
unfolding field? without_field
field?-without_field k j end = ground arith
field?-without_field k j (field i w fs) =
    ground (arith, eq_iff k j, eq_iff i k, eq_iff i j, field?-without_field k j fs)
