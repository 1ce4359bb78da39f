-- ===== src/RunState/History.antt =====
-- Sequences of the commands of scripts/run-state.py.
use Prim.Native.String.{String}
use mathlib.Core.List.{append-nil, append_assoc}
use pulsaros_testbed.Prelude.{
  ◌≡◌, refl, sym, ◌∙◌, ap, arith, true, eq_iff, some, ok, List, [], ◌∷◌, ◌++◌, snoc,
}
use pulsaros_testbed.Value.{
  Value, str, dict, Fields, field?, get_or, get_field, end, field, py_str, truthy,
}
use pulsaros_testbed.RunState.{
  World, Clock, SdnKind, cmd_phase, cmd_vm, cmd_sdn, cmd_sync_topology, cmd_init, previous_state,
  ensure_state, phase_entry,
}
use pulsaros_testbed.RunState.Guard.{
  Keeps, run_of, phases_of, listed, ensure_state-recorded, cmd_phase-lem,
}
use pulsaros_testbed.RunState.Frame.{
  cmd_vm-lem, cmd_sdn-lem, cmd_sync_topology-lem, cmd_init-phases, phases-run_id,
}

-- One command that succeeds, or a new topology.json. An `init` is one for the run that the state
-- belongs to.
pub data Step (w w' : World) : Type 0 where
  phase :
      (clock : Clock) (name status message run_id : String)
      → cmd_phase clock name status message run_id w ≡ ok w'
      → Step w w'
  vm :
      (clock : Clock) (host status management_ip run_id : String)
      → cmd_vm clock host status management_ip run_id w ≡ ok w'
      → Step w w'
  sdn :
      (clock : Clock) (kind : SdnKind) (name status run_id : String)
      → cmd_sdn clock kind name status run_id w ≡ ok w'
      → Step w w'
  sync : (clock : Clock) (run_id : String) → cmd_sync_topology clock run_id w ≡ ok w' → Step w w'
  init :
      (clock : Clock) (name : String)
      → run_of w.state ≡ run_of w.topology
      → cmd_init clock name w ≡ ok w'
      → Step w w'
  rendered : w'.state ≡ w.state → Step w w'

-- A sequence of steps.
pub data Life : World → World → Type 0 where
  idle : {w : World} → Life w w
  then_step : {u v w : World} → Step u v → Life v w → Life u w

-- A state with a run id.
abbrev pub HasRun : World → Type 0
HasRun w = (v : Value) × (field? "run_id" w.state ≡ some v)

-- The recorded phases of the second world go on from those of the first.
abbrev pub GoesOn : World → World → Type 0
GoesOn w w' = (more : List Value) × (phases_of w'.state ≡ phases_of w.state ++ more)

HasRun-truthy : (fs : Fields) {v : Value} → field? "run_id" fs ≡ some v → truthy (dict fs) ≡ true
HasRun-truthy end h = unfold field? in ground arith
HasRun-truthy (field k v fs) h = unfold truthy in refl

phases_of-same :
    (s t : Fields) → field? "phases" t ≡ field? "phases" s → phases_of t ≡ phases_of s ++ []
unfolding phases_of
phases_of-same s t h = ap listed h ∙ sym (append-nil (phases_of s))

module _ (w w' : World) (run : HasRun w) where
  -- A command that goes on from the recorded state.
  module _ (clock : Clock) (run_id : String) (s : Fields)
      (read : ensure_state clock w run_id ≡ ok s) where
    pub same_state : s ≡ w.state
    same_state = ensure_state-recorded clock w run_id s (HasRun-truthy w.state run.1) read

    pub keeps-run : field? "run_id" w'.state ≡ field? "run_id" s → HasRun w'
    keeps-run kept = (run.0, kept ∙ ap (field? "run_id") same_state ∙ run.1)

    keeps-phases : field? "phases" w'.state ≡ field? "phases" s → GoesOn w w'
    keeps-phases kept =
        ([], phases_of-same w.state w'.state (kept ∙ ap (field? "phases") same_state))

    Keeps-both : Keeps ("resources" ∷ "updated_at" ∷ []) s w'.state → HasRun w' × GoesOn w w'
    Keeps-both kept = (
      keeps-run (kept "run_id" ((λ e. cc), ((λ e. cc), tt))),
      keeps-phases (kept "phases" ((λ e. cc), ((λ e. cc), tt))),
    )

  previous_state-same : run_of w.state ≡ run_of w.topology → previous_state w ≡ w.state
  unfolding previous_state
  previous_state-same h = ground (
    arith,
    eq_iff (py_str (get_or "run_id" (str "") w.state))
        (py_str (get_or "run_id" (str "") w.topology)),
  )

  Step-GoesOn : Step w w' → HasRun w' × GoesOn w w'
  Step-GoesOn (phase clock name status message run_id h) =
      let (s, read, grown, _, kept) = cmd_phase-lem clock name status message run_id w w' h in
      (
        keeps-run clock run_id s read (kept "run_id" ((λ e. cc), (phases-run_id, ((λ e. cc), tt)))),
        (
          dict (phase_entry name status clock.appended_at message) ∷ [],
          grown
              ∙ ap
                  (λ x.
                    snoc (phases_of x) (dict (phase_entry name status clock.appended_at message)))
                  (same_state clock run_id s read),
        ),
      )
  Step-GoesOn (vm clock host status management_ip run_id h) =
      let (s, read, _, _, _, _, _, kept) =
        cmd_vm-lem clock w w' host status management_ip run_id h in
      Keeps-both clock run_id s read kept
  Step-GoesOn (sdn clock kind name status run_id h) =
      let (s, read, kept) = cmd_sdn-lem clock w w' kind name status run_id h in
      Keeps-both clock run_id s read kept
  Step-GoesOn (sync clock run_id h) =
      let (s, read, _, kept) = cmd_sync_topology-lem clock w w' run_id h in
      Keeps-both clock run_id s read kept
  Step-GoesOn (init clock name belongs h) =
      let (grown, recorded) = cmd_init-phases clock w w' name h in
      (
        (get_field "run_id" w.topology, recorded),
        (
          dict (phase_entry name "started" clock.appended_at "") ∷ [],
          grown
              ∙ ap
                  (λ x. snoc (phases_of x) (dict (phase_entry name "started" clock.appended_at "")))
                  (previous_state-same belongs),
        ),
      )
  Step-GoesOn (rendered same) = (
    (run.0, ap (field? "run_id") same ∙ run.1),
    ([], phases_of-same w.state w'.state (ap (field? "phases") same)),
  )

-- Over any sequence of successful commands and new topologies that starts at a state with a run
-- id, and in which every `init` is for the run of the state, the state keeps having a run id, and
-- the recorded phases at the end are those at the start with more behind them.
pub Life-GoesOn : {w w' : World} → HasRun w → Life w w' → HasRun w' × GoesOn w w'
Life-GoesOn {w} run idle = (run, ([], sym (append-nil (phases_of w.state))))
Life-GoesOn {w} {w'} run (then_step {v = v} x rest) =
    let (run_next, (first, e)) = Step-GoesOn w v run x in
    let (run_last, (more, f)) = Life-GoesOn run_next rest in
    (
      run_last,
      (first ++ more, f ∙ ap (λ l. l ++ more) e ∙ append_assoc (phases_of w.state) first more),
    )
