-- ===== src/Call/Callbacks.antt =====
-- client/src/call/store.ts: the callbacks of the peer connection, and `handleIncomingCallEvent`.
use dfchat.Common.{
  ℕ, String, Bool, true, false, Option, none, some, List, [], ◌∷◌, ◌++◌, nat_eq, if◌then◌else◌, any,
}
use dfchat.Call.{
  CallKind, Track, MediaStream, idle, inviting, incoming, connected, ended, CallStore,
}
use dfchat.Call.Media.{teardown, new_peer_connection, flush_pending_candidates}
use dfchat.Call.Handlers.{send, set_state, in_call}

-- `ontrack`: the tracks that the remote stream has not yet are added.
unfoldable pub add_remote : List Track → List Track → List Track
add_remote [] remote = remote
add_remote (t ∷ ts) remote =
    add_remote ts (if any (λ x. nat_eq x.id t.id) remote then remote else remote ++ t ∷ [])

unfoldable pub on_track : List Track → CallStore → CallStore
on_track ts c0 = elim c0.remote_stream [
  | none ↦ c0
  | some remote ↦
      let c = record c0 { remote_stream = some (add_remote ts remote) } in
      elim c.state [
        | connected s ↦ set_state (connected (record s { remote_stream = c.remote_stream })) c
        | _ ↦ c
      ]
]

-- `onicecandidate` of a connection that was made for the peer
unfoldable pub on_ice_candidate : String → CallStore → CallStore
on_ice_candidate peer_id c = send "call.signal" peer_id c

-- `onconnectionstatechange` to `failed` or `disconnected`
unfoldable pub on_connection_lost : CallStore → CallStore
on_connection_lost c = elim c.pc [ none ↦ c | some peer ↦ teardown (set_state (ended "连接断开") c) ]

-- A session description that comes in, if there is one, and whether setRemoteDescription takes it.
abbrev pub Description : Type 0
Description = Option Bool

abbrev pub described_peer : CallStore → CallStore
described_peer c = elim c.pc [
  | none ↦ c
  | some peer ↦ record c { pc = some (record peer { remote_description = true }) }
]

-- 'call.invite'. Where the devices or the description fail, the promise rejects and what was made so
-- far stays.
unfoldable pub on_invite :
    (from : String)
    → CallKind
    → Description
    → Option (List String)
    → Option MediaStream
    → CallStore
    → CallStore
on_invite from kind sdp servers media c = elim c.state [
  | idle ↦
      let asked = new_peer_connection servers media kind c in
      if asked.1
      then elim sdp [
        | none ↦ set_state (incoming from from kind) asked.0
        | some true ↦ set_state (incoming from from kind) (described_peer asked.0)
        | some false ↦ asked.0
      ]
      else asked.0
  | _ ↦ send "call.reject" from c
]

-- 'call.accept'
unfoldable pub on_accept : Description → (now : ℕ) → CallStore → CallStore
on_accept sdp now c = elim c.pc [
  | none ↦ c
  | some peer ↦ elim sdp [
    | some true ↦
        let d = flush_pending_candidates (described_peer c) in
        elim c.state [
          | inviting peer_id peer_name kind ↦ in_call peer_id peer_name kind now d
          | _ ↦ d
        ]
    | _ ↦ c
  ]
]

-- 'call.reject'
unfoldable pub on_reject : CallStore → CallStore
on_reject c = set_state (ended "对方拒绝") (teardown c)

-- 'call.signal' of a candidate. One that the connection refuses counts as given.
unfoldable pub on_signal : String → CallStore → CallStore
on_signal candidate c =
    let waiting = record c { pending_candidates = c.pending_candidates ++ candidate ∷ [] } in
    elim c.pc [
      | none ↦ waiting
      | some peer ↦
          if peer.remote_description
          then record c {
            pc = some (record peer { candidates = peer.candidates ++ candidate ∷ [] });
          }
          else waiting
    ]

-- 'call.end'
unfoldable pub on_end : CallStore → CallStore
on_end c = set_state (ended "通话已结束") (teardown c)
