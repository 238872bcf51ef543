-- ===== src/Sync/Shared.antt =====
-- client/src/sync/engine.ts: `syncAllConversations` as its callers share it. A round waits for the list of
-- conversations and then for its pulls, all at once; the first pull that fails ends it, and the others
-- go on.
use dfchat.Common.{
  ℕ, zero, suc, ◌+◌, Bool, true, false, Option, none, some, List, [], ◌∷◌, ◌≡◌, arith,
}

-- What a round waits for: the list, or pulls of which one more than the number are left.
pub data Wait : Type 0 where
  listing : Wait
  pulling : ℕ → Wait

-- `inflight`, the pulls that outlive their round, and how many rounds have asked for the list and have
-- ended.
pub record Engine : Type 0 where
  pub inflight : Option Wait
  pub stray_pulls : ℕ
  pub asked : ℕ
  pub ended : ℕ

pub data Event : Type 0 where
  called : Event
  listed : Option ℕ → Event
  pulled : (ok : Bool) → Event
  stray_pulled : Event

abbrev pub end_round : Engine → Engine
end_round e = record e { inflight = none; ended = suc e.ended }

-- the call: a round that runs is shared
unfoldable pub sync_all : Engine → Engine
sync_all e = elim e.inflight [
  | some w ↦ e
  | none ↦ record e { inflight = some listing; asked = suc e.asked }
]

-- the list, by how many conversations are behind; none for an error
unfoldable pub on_listed : Option ℕ → Engine → Engine
on_listed behind e = elim e.inflight [
  | none ↦ e
  | some (pulling n) ↦ e
  | some listing ↦ elim behind [
    | none ↦ end_round e
    | some zero ↦ end_round e
    | some (suc n) ↦ record e { inflight = some (pulling n) }
  ]
]

-- the end of a pull of the round that runs
unfoldable pub on_pulled : (ok : Bool) → Engine → Engine
on_pulled ok e = elim e.inflight [
  | none ↦ e
  | some listing ↦ e
  | some (pulling n) ↦ elim ok [
    | false ↦ end_round (record e { stray_pulls = n + e.stray_pulls })
    | true ↦ elim n [ zero ↦ end_round e | suc k ↦ record e { inflight = some (pulling k) } ]
  ]
]

abbrev pub on_stray_pulled : Engine → Engine
on_stray_pulled e = elim e.stray_pulls [ zero ↦ e | suc n ↦ record e { stray_pulls = n } ]

unfoldable pub step : Event → Engine → Engine
step called e = sync_all e
step (listed behind) e = on_listed behind e
step (pulled ok) e = on_pulled ok e
step stray_pulled e = on_stray_pulled e

unfoldable pub run : List Event → Engine → Engine
run [] e = e
run (ev ∷ evs) e = run evs (step ev e)

abbrev pub running : Engine → ℕ
running e = elim e.inflight [ none ↦ 0 | some w ↦ 1 ]

-- Every round that asked for the list has ended, but the one that runs.
abbrev pub IsShared : Engine → Type 0
IsShared e = e.asked ≡ e.ended + running e

step-IsShared : (ev : Event) (e : Engine) → IsShared e → IsShared (step ev e)
unfolding step sync_all on_listed on_pulled
step-IsShared called e h = ground (arith, h)
step-IsShared (listed behind) e h = ground (arith, h)
step-IsShared (pulled ok) e h = ground (arith, h)
step-IsShared stray_pulled e h = ground (arith, h)

-- Over any calls and answers at most one round runs, and no call asks for the list while it does.
run-IsShared : (evs : List Event) (e : Engine) → IsShared e → IsShared (run evs e)
unfolding run
run-IsShared [] e h = h
run-IsShared (ev ∷ evs) e h = run-IsShared evs (step ev e) (step-IsShared ev e h)
