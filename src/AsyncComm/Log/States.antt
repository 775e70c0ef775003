-- ===== src/AsyncComm/Log/States.antt =====
-- The conversation states: what setting, clearing and resuming do, for the peer and for the others.
use team_harness.Prelude.{
  String, ◌≡◌, ◌≢◌, ◌⊎◌, inl, inr, refl, sym, ap, ◌∙◌, subst, Bool, true, false, Option, none, some,
  List, [], arith, ◌==◌, ==_iff, ==_refl, nonempty, if◌then◌else◌, Bool-cases, Option-cases,
}
use Prim.Native.String.{◌++◌ as str_append}
use team_harness.Prelude.Dict
use team_harness.Prelude.Dict.{Dict, get-put, get-put_self, get-remove}
use team_harness.AsyncComm.Types.{
  ConvState, active, paused, timeout_disconnect, resumed, conv_state_text, same_conv_state,
  ConversationEvent,
}
use team_harness.AsyncComm.Log.{
  Entry, ConversationLog, load_by_peer, load_thread, unchanged, set_conversation_state,
  get_conversation_state, is_paused, clear_conversation_state, or_by_peer, context,
  resume_conversation,
}
use team_harness.AsyncComm.Log.Thread.Complete.{load_thread-Related}

same_conv_state-eq : (s t : ConvState) → same_conv_state s t ≡ true → s ≡ t
same_conv_state-eq (ConvState.other a) (ConvState.other b) h = ground (arith, ==_iff a b)
same_conv_state-eq active t h = ground arith
same_conv_state-eq paused t h = ground arith
same_conv_state-eq timeout_disconnect t h = ground arith
same_conv_state-eq resumed t h = ground arith
same_conv_state-eq (ConvState.other a) t h = ground arith

-- what a client sees of the state of a peer
abbrev pub HasState : ConversationLog → String → ConvState → String → Type 0
HasState log peer_id state last =
    (e : Entry) × (get_conversation_state log peer_id ≡ some e)
    × (e.state ≡ state)
    × (e.last_event_id ≡ last)

unchanged-HasState :
    (o : Option Entry) (state : ConvState) (last : String)
    → unchanged o state last ≡ true
    → (e : Entry) × (o ≡ some e) × (e.state ≡ state) × (e.last_event_id ≡ last)
unchanged-HasState none state last h = absurd (cc)
unchanged-HasState (some e) state last h = (
  e,
  refl,
  same_conv_state-eq e.state state (ground arith),
  (==_iff e.last_event_id last).0 (ground arith),
)

same_conv_state_refl : (s : ConvState) → same_conv_state s s ≡ true
same_conv_state_refl (ConvState.other a) = ==_refl a
same_conv_state_refl active = refl
same_conv_state_refl paused = refl
same_conv_state_refl timeout_disconnect = refl
same_conv_state_refl resumed = refl

HasState-unchanged :
    (log : ConversationLog) (p : String) (state : ConvState) (last : String)
    → HasState log p state last
    → unchanged (Dict.get p log.cache) state last ≡ true
HasState-unchanged log p state last (e, at, s, l) =
    rw (at, s, l, same_conv_state_refl state, ==_refl last)

-- After `set_conversation_state` the peer has the state and the last event, every other peer keeps
-- its entry and the event file is untouched. If the peer had both already, nothing changes, the
-- time and the reason included.
pub set_conversation_state-HasState :
    (now p : String) (state : ConvState) (last reason : String) (log : ConversationLog)
    → let after = set_conversation_state now p state last reason log in
      HasState after p state last
      × ((q : String) → q ≢ p → get_conversation_state after q ≡ get_conversation_state log q)
      × (after.lines ≡ log.lines)
      × (HasState log p state last → after ≡ log)
unfolding set_conversation_state
set_conversation_state-HasState now p state last reason log =
    elim (Bool-cases (unchanged (Dict.get p log.cache) state last)) [
      | inl same ↦
          rw (same, set_conversation_state)
            (
              unchanged-HasState (Dict.get p log.cache) state last same,
              λ q ne. refl,
              refl,
              λ h. refl,
            )
      | inr differs ↦
          let entry : Entry = record {
            peer_id = p;
            state = state;
            last_event_id = last;
            reason = reason;
            updated_at = now;
          } in
          rw (differs, set_conversation_state)
            (
              (entry, get-put_self p entry log.cache, refl, refl),
              λ q ne. ground (arith, get-put p q entry log.cache, ==_iff p q),
              refl,
              λ h. absurd (cc (HasState-unchanged log p state last h, differs)),
            )
    ]

-- After `clear_conversation_state` the peer has no state, and every other peer keeps its own.
pub clear_conversation_state-get :
    (p q : String) (log : ConversationLog)
    → get_conversation_state (clear_conversation_state p log) q
      ≡ (if p == q then none else get_conversation_state log q)
unfolding clear_conversation_state
clear_conversation_state-get p q log = ground (arith, get-remove p q log.cache, ==_iff p q)

load_thread_total :
    (log : ConversationLog) (root : String)
    → (thread : List ConversationEvent) × (load_thread log root ≡ some thread)
load_thread_total log root = elim (load_thread-Related log root) [
  | inl (absent, e) ↦ ([], e)
  | inr (start, thread, found, e, sorted, sound, full) ↦ (thread, e)
]

context_total :
    (log : ConversationLog) (p last : String)
    → (events : List ConversationEvent) × (context log p last ≡ some events)
unfolding context
context_total log p last = elim (Bool-cases (nonempty last)) [
  | inl has ↦
      let (thread, e) = load_thread_total log last in (or_by_peer log p thread, rw has (rw e))
  | inr none_left ↦ (load_by_peer log p none, rw none_left)
]

abbrev is_paused_at : Option Entry → Bool
is_paused_at none = false
is_paused_at (some e) = is_paused e.state

resume_idle :
    (now p : String) (log : ConversationLog)
    → ((e : Entry) → get_conversation_state log p ≡ some e → is_paused e.state ≡ false)
    → resume_conversation now p log ≡ some (log, [])
unfolding resume_conversation
resume_idle now p log idle = elim (Option-cases (Dict.get p log.cache)) [
  | inl absent ↦ rw (absent, resume_conversation)
  | inr (e, at) ↦ rw (at, resume_conversation) (rw (idle e at))
]

resume_paused :
    (now p : String) (log : ConversationLog) (e : Entry) (events : List ConversationEvent)
    → get_conversation_state log p ≡ some e
    → is_paused e.state ≡ true
    → context log p e.last_event_id ≡ some events
    → resume_conversation now p log
      ≡ some (
        set_conversation_state now p resumed e.last_event_id
            (str_append "resumed_from_" (conv_state_text e.state))
            log,
        events,
      )
unfolding resume_conversation
resume_paused now p log e events at paused_now ctx =
    rw (at, resume_conversation) (rw paused_now (rw ctx))

-- `resume_conversation` always returns. A peer whose conversation is paused or timed out gets its
-- context, and is then resumed at the same last event; otherwise the answer is empty and nothing
-- changes. To resume once more does nothing.
pub resume_conversation_twice :
    (now later p : String) (log : ConversationLog)
    → (after : ConversationLog) × (events : List ConversationEvent) × (resume_conversation now p log
        ≡ some (after, events))
      × (after.lines ≡ log.lines)
      × (((e : Entry) × (get_conversation_state log p ≡ some e)
            × (is_paused e.state ≡ true)
            × (context log p e.last_event_id ≡ some events)
            × HasState after p resumed e.last_event_id)
          ⊎ ((events ≡ []) × (after ≡ log)))
      × (resume_conversation later p after ≡ some (after, []))
resume_conversation_twice now later p log = elim (Option-cases (Dict.get p log.cache)) [
  | inl absent ↦
      let idle = λ (t : String). resume_idle t p log (λ x at. cc) in
      (log, [], idle now, refl, inr (refl, refl), idle later)
  | inr (e, at) ↦ elim (Bool-cases (is_paused e.state)) [
    | inr running ↦
        let idle = λ (t : String).
          resume_idle t p log
            (λ x at_x. subst (λ o. is_paused_at o ≡ false) (sym at ∙ at_x) running) in
        (log, [], idle now, refl, inr (refl, refl), idle later)
    | inl waits ↦
        let (events, ctx) = context_total log p e.last_event_id in
        let reason = str_append "resumed_from_" (conv_state_text e.state) in
        let after = set_conversation_state now p resumed e.last_event_id reason log in
        let (has, others, lines, same) =
          set_conversation_state-HasState now p resumed e.last_event_id reason log in
        let (x, at_x, state_x, last_x) = has in
        (
          after,
          events,
          resume_paused now p log e events at waits ctx,
          lines,
          inl (e, at, waits, ctx, has),
          resume_idle later p after (λ y at_y.
              subst (λ o. is_paused_at o ≡ false) (sym at_x ∙ at_y) (ap is_paused state_x)),
        )
  ]
]
