-- ===== src/AsyncComm/Sync/Safety.antt =====
-- A sync touches the mailbox and the log through their operations alone, so that it keeps what
-- they keep, whatever the transport and the resolver do.
use team_harness.Prelude.{
  String, ◌≡◌, refl, sym, ap, ◌∙◌, subst, none, some, List, [], ◌∷◌, ◌++◌, nonempty, Distinct,
  Bool-cases, Option-cases, inl, inr,
}
use team_harness.Prelude.Result.{Result, ok, raise}
use team_harness.AsyncComm.Types.{
  realtime_answer, simulated_answer, Status, delivered, ConversationEvent,
}
use team_harness.AsyncComm.Lines.{file_ids}
use team_harness.AsyncComm.Mailbox.{Mailbox, get_status}
use team_harness.AsyncComm.Mailbox.Transitions.{
  run-append, Op, to_inbox, update, apply, run, run-Progress, Progress,
}
use team_harness.AsyncComm.Mailbox.Invariant.{IsConsistent, run-IsConsistent}
use team_harness.AsyncComm.Log.{ConversationLog, append, load_by_peer}
use team_harness.AsyncComm.Log.Queries.{append_all, append_all-Distinct}
use team_harness.AsyncComm.Sync.Types.{Message, SyncResult, World, Context}
use team_harness.AsyncComm.Sync.Events.{
  event_from_message, resolution_event, text_at, build_messages,
}
use team_harness.AsyncComm.Sync.{
  is_empty, successful, mark_delivered, status_of, update_for_resolution, Counts, no_counts,
  of_type, first_answer, push_result, push_outbox, receive, receive_all, pull_inbox, settle,
  reconcile_one, reconcile_all, reconcile, sync_with_peer,
}
use team_harness.AsyncComm.Sync.Push.{targets}

-- `w` comes from `v` by operations of the mailbox and appends to the log
abbrev Reached : World → World → Type 0
Reached v w =
    ((ops : List Op) × (w.mailbox ≡ run ops v.mailbox))
    × ((es : List ConversationEvent) × (w.log ≡ append_all es v.log))

append_all-append :
    (es fs : List ConversationEvent) (log : ConversationLog)
    → append_all (es ++ fs) log ≡ append_all fs (append_all es log)
unfolding append_all
append_all-append [] fs log = refl
append_all-append (e ∷ es) fs log = append_all-append es fs (append e log).0

Reached-refl : (w : World) → Reached w w
unfolding run append_all
Reached-refl w = (([], refl), ([], refl))

Reached-trans : (u v w : World) → Reached u v → Reached v w → Reached u w
Reached-trans u v w ((ops, p), (es, q)) ((more, r), (fs, s)) = (
  (ops ++ more, r ∙ ap (run more) p ∙ sym (run-append ops more u.mailbox)),
  (es ++ fs, s ∙ ap (append_all fs) q ∙ sym (append_all-append es fs u.log)),
)

mark_delivered-run :
    (es : List ConversationEvent) (mb : Mailbox)
    → (ops : List Op) × ((mark_delivered es mb).0 ≡ run ops mb)
unfolding mark_delivered run apply
mark_delivered-run [] mb = ([], refl)
mark_delivered-run (e ∷ es) mb =
    let (ops, p) = mark_delivered-run es (apply (update e.event_id delivered) mb) in
    (update e.event_id delivered ∷ ops, p)

update_for_resolution-run :
    (i decision : String) (mb : Mailbox)
    → (ops : List Op) × (update_for_resolution i decision mb ≡ run ops mb)
unfolding update_for_resolution run apply
update_for_resolution-run i decision mb = elim (Option-cases (status_of decision)) [
  | inl unknown ↦ ([], rw (unknown, update_for_resolution) refl)
  | inr (s, is) ↦ (update i s ∷ [], rw (is, update_for_resolution) refl)
]

push_result-Reached :
    (w : World) (es : List ConversationEvent) (r : Result SyncResult)
    → Reached w (push_result w es r).0
unfolding push_result append_all
push_result-Reached w es (raise x) = Reached-refl w
push_result-Reached w es (ok r) = (mark_delivered-run (successful r es) w.mailbox, ([], refl))

module _ (c : Context) where
  receive-Reached : (m : Message) (w : World) → Reached w (receive c m w)
  unfolding receive run apply append_all
  receive-Reached m w =
      let e = event_from_message c (c.uuids w.uuid_at) (c.times w.time_at) m in
      ((to_inbox e ∷ [], refl), (e ∷ [], refl))

  receive_all-Reached : (ms : List Message) (w : World) → Reached w (receive_all c ms w).0
  unfolding receive_all
  receive_all-Reached [] w = Reached-refl w
  receive_all-Reached (m ∷ ms) w =
      Reached-trans w (receive c m w) (receive_all c ms (receive c m w)).0 (receive-Reached m w)
        (receive_all-Reached ms (receive c m w))

  pull_inbox-Reached : (peer_id : String) (w : World) → Reached w (pull_inbox c peer_id w).0
  unfolding pull_inbox
  pull_inbox-Reached peer_id w = of (c.fetch peer_id) refl
    where
      of : (r : Result (List Message)) → c.fetch peer_id ≡ r → Reached w (pull_inbox c peer_id w).0
      of (raise x) h = rw (h, pull_inbox) (Reached-refl w)
      of (ok ms) h = rw (h, pull_inbox) (receive_all-Reached ms w)

  push_outbox-Reached : (peer_id : String) (w : World) → Reached w (push_outbox c peer_id w).0
  unfolding push_outbox
  push_outbox-Reached peer_id w = elim (Bool-cases (is_empty (targets peer_id w))) [
    | inl none_left ↦ rw (none_left, push_outbox) (Reached-refl w)
    | inr some_left ↦
        let (messages, at) = build_messages c w.time_at peer_id (targets peer_id w) in
        rw (some_left, push_outbox)
          (push_result-Reached (record w { time_at = at }) (targets peer_id w)
            (c.deliver peer_id messages))
  ]

  module _ (resolve : String → String → String → Result (String × String)) (peer_id : String) where
    settle-Reached :
        (sim real : ConversationEvent) (s : World × Counts)
        → Reached s.0 (settle c resolve peer_id sim real s).0
    unfolding settle run append_all
    settle-Reached sim real (w, n) =
        of (resolve (text_at c "answer" sim.payload) (text_at c "answer" real.payload) sim.event_id)
          refl
      where
        of :
            (r : Result (String × String))
            → resolve
                (text_at c "answer" sim.payload)
                (text_at c "answer" real.payload)
                sim.event_id
              ≡ r
            → Reached w (settle c resolve peer_id sim real (w, n)).0
        of (raise x) h = rw (h, settle) (Reached-refl w)
        of (ok (decision, note)) h =
            rw (h, settle)
              (
                update_for_resolution-run sim.event_id decision w.mailbox,
                (
                  resolution_event (c.uuids w.uuid_at) (c.times w.time_at) peer_id decision
                        sim.event_id note (text_at c "answer" sim.payload)
                        (text_at c "answer" real.payload)
                      ∷ [],
                  refl,
                ),
              )

    reconcile_one-Reached :
        (answers : List ConversationEvent) (sim : ConversationEvent) (s : World × Counts)
        → Reached s.0 (reconcile_one c resolve peer_id answers sim s).0
    unfolding reconcile_one
    reconcile_one-Reached answers sim s = elim (Bool-cases (nonempty sim.in_reply_to)) [
      | inr orphan ↦ rw (orphan, reconcile_one) (Reached-refl s.0)
      | inl asked ↦ elim (Option-cases (first_answer sim.in_reply_to answers)) [
        | inl open_ ↦ rw (asked, open_, reconcile_one) (Reached-refl s.0)
        | inr (real, found) ↦ rw (asked, found, reconcile_one) (settle-Reached sim real s)
      ]
    ]

    reconcile_all-Reached :
        (answers sims : List ConversationEvent) (s : World × Counts)
        → Reached s.0 (reconcile_all c resolve peer_id answers sims s).0
    unfolding reconcile_all
    reconcile_all-Reached answers [] s = Reached-refl s.0
    reconcile_all-Reached answers (sim ∷ sims) s =
        let next = reconcile_one c resolve peer_id answers sim s in
        Reached-trans s.0 next.0 (reconcile_all c resolve peer_id answers sims next).0
          (reconcile_one-Reached answers sim s) (reconcile_all-Reached answers sims next)

  reconcile-Reached : (peer_id : String) (w : World) → Reached w (reconcile c peer_id w).0
  unfolding reconcile
  reconcile-Reached peer_id w = elim (Option-cases c.resolver) [
    | inl missing ↦ rw (missing, reconcile) (Reached-refl w)
    | inr (resolve, given) ↦
        let events = load_by_peer w.log peer_id none in
        rw (given, reconcile)
          (reconcile_all-Reached resolve peer_id (of_type realtime_answer events)
            (of_type simulated_answer events) (w, no_counts))
  ]

  sync_with_peer-Reached : (peer_id : String) (w : World) → Reached w (sync_with_peer c peer_id w).0
  unfolding sync_with_peer
  sync_with_peer-Reached peer_id w =
      let w₁ = (push_outbox c peer_id w).0 in
      let w₂ = (pull_inbox c peer_id w₁).0 in
      let w₃ = (reconcile c peer_id w₂).0 in
      Reached-trans w w₁ w₃ (push_outbox-Reached peer_id w)
        (Reached-trans w₁ w₂ w₃ (pull_inbox-Reached peer_id w₁) (reconcile-Reached peer_id w₂))

  -- A sync keeps the mailbox consistent and the ids of the log distinct, and takes the status of a
  -- known message at most one step of the flow further, whatever the transport and the resolver
  -- answer or raise.
  pub sync_with_peer-IsConsistent :
      (peer_id : String) (w : World)
      → IsConsistent w.mailbox
      → Distinct (file_ids w.log.lines)
      → let after = (sync_with_peer c peer_id w).0 in
        IsConsistent after.mailbox
        × Distinct (file_ids after.log.lines)
        × ((i : String) (s : Status)
            → get_status w.mailbox i ≡ some s
            → (t : Status) × (get_status after.mailbox i ≡ some t) × Progress s t)
  sync_with_peer-IsConsistent peer_id w h d =
      let ((ops, p), (es, q)) = sync_with_peer-Reached peer_id w in
      (
        subst IsConsistent (sym p) (run-IsConsistent ops w.mailbox h),
        subst (λ (l : ConversationLog). Distinct (file_ids l.lines)) (sym q)
            (append_all-Distinct es w.log d),
        λ i s at.
            let (t, now, step) = run-Progress ops i s w.mailbox at in
            (t, ap (λ mb. get_status mb i) p ∙ now, step),
      )
