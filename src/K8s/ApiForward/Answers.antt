-- ===== src/K8s/ApiForward/Answers.antt =====
-- What `Forward` through the API answers, and what it leaves behind.
use voidshell.Prelude.{
  ℕ, ◌<◌, ◌^◌, Bool, true, false, Option, none, some, List, [], ◌∷◌, ◌++◌, Text, ◌≡◌, ◌≢◌, refl, ap,
  sym, ◌∙◌, subst, append-nil,
}
use voidshell.K8s.Forward.{
  remote_done, errors_read, ForwardError, Wait, anything, error_stream, output, Calls, cancelled,
  context_ended, receive, forward_api,
}
use voidshell.K8s.Forward.Tunnelled.{Tunnelled, forward_api-Tunnelled, Occurs}
use voidshell.K8s.DirectForward.{armed}
use voidshell.K8s.ApiForward.{
  Phase, hear, waiting, stopping, closing_conn, returned, Reader, Output, ApiForwarding,
  take_context, takes_context, step, Reach,
}
use voidshell.K8s.ApiForward.Remaining.{with_events, remaining, Follows, Reach-Follows}
use voidshell.K8s.ApiForward.Ends.{remotes, reads, remotes-append, reads-append}
use voidshell.K8s.ApiForward.Invariant.{
  Inv, received_output, received_errors, is_returned, not_armed,
}
use voidshell.K8s.ApiForward.Heard.{Reach-Inv}

-- What is returned, where that is decided.
abbrev pub answer : Phase → Option (Option ForwardError)
answer (stopping r) = some r
answer (closing_conn r) = some r
answer (returned r) = some r
answer _ = none

only : {A : Type 0} (a b : List A) (x y : A) → a ++ x ∷ b ≡ y ∷ [] → x ≡ y
only [] b x y h = cc
only (z ∷ []) b x y h = cc
only (z ∷ z' ∷ a) b x y h = cc

none_in : {A : Type 0} (a b : List A) (x : A) → a ++ x ∷ b ≢ []
none_in [] b x h = cc
none_in (z ∷ a) b x h = cc

output_taken :
    (o : Output) (a b : List (Option Text)) (x : Option Text)
    → a ++ x ∷ b ≡ received_output o
    → o ≡ Output.taken x
output_taken (Output.taken e) a b x h = ap Output.taken (sym (only a b x e h))
output_taken Output.unstarted a b x h = absurd (none_in a b x h)
output_taken Output.copying a b x h = absurd (none_in a b x h)
output_taken (Output.sent e) a b x h = absurd (none_in a b x h)

errors_taken :
    (r : Reader) (a b : List (Text × Option Text)) (x : Text × Option Text)
    → a ++ x ∷ b ≡ received_errors r
    → r ≡ Reader.taken x.0 x.1
errors_taken (Reader.taken m f) a b x h =
    ap (λ (y : Text × Option Text). Reader.taken y.0 y.1) (sym (only a b x (m, f) h))
errors_taken Reader.unstarted a b x h = absurd (none_in a b x h)
errors_taken Reader.reading a b x h = absurd (none_in a b x h)
errors_taken (Reader.sent m f) a b x h = absurd (none_in a b x h)

sent_output :
    (s : ApiForwarding) (e : Option Text)
    → Inv s
    → Occurs (remote_done e) s.heard
    → s.output ≡ Output.taken e
unfolding remotes
sent_output s e inv (before, after, q) =
    output_taken s.output (remotes before) (remotes after) e
      (sym (ap remotes q ∙ remotes-append before (remote_done e ∷ after)) ∙ inv.remote)

sent_errors :
    (s : ApiForwarding) (m : Text) (f : Option Text)
    → Inv s
    → Occurs (errors_read m f) s.heard
    → s.reader ≡ Reader.taken m f
unfolding reads
sent_errors s m f inv (before, after, q) =
    errors_taken s.reader (reads before) (reads after) (m, f)
      (sym (ap reads q ∙ reads-append before (errors_read m f ∷ after)) ∙ inv.read)

abbrev pub is_some : {A : Type 0} → Option A → Bool
is_some none = false
is_some (some x) = true

context_leaves :
    (s : ApiForwarding) (w : Wait)
    → s.context_done ≡ true
    → (s' : ApiForwarding) × (take_context s (waiting w) ≡ some s')
      × (answer s'.phase ≡ some (some cancelled))
unfolding take_context receive
context_leaves s anything c = (hear context_ended s anything, rw c refl, refl)
context_leaves s (error_stream e) c = (hear context_ended s (error_stream e), rw c refl, refl)
context_leaves s output c = (hear context_ended s output, rw c refl, refl)

module _ (calls : Calls) (namespace pod : Text) (port : ℕ) where
  remaining_answer :
      (p : Phase) (r : Option ForwardError)
      → answer p ≡ some r
      → remaining calls namespace pod port p [] ≡ some r
  remaining_answer (stopping r') r h = h
  remaining_answer (closing_conn r') r h = h
  remaining_answer (returned r') r h = h
  remaining_answer _ r h = cc

  answered_by :
      {s : ApiForwarding} (r : Option ForwardError)
      → Reach calls namespace pod port s
      → answer s.phase ≡ some r
      → forward_api (with_events calls s.heard) namespace pod port ≡ some r
  unfolding Follows
  answered_by {s} r reach h =
      ap (λ l. forward_api (with_events calls l) namespace pod port) (sym (append-nil s.heard))
      ∙ Reach-Follows calls namespace pod port reach []
      ∙ remaining_answer s.phase r h

  -- Between any two steps of `Forward` through the API, its goroutines and the function that it has
  -- registered: where it has decided what to return, that is what the function of K8s.Forward gives
  -- for the events that its `select`s have received, in their order. If that is no error, and the
  -- port has 16 bits, the connection has gone to the pod's port; the copy of the output has sent an
  -- end without an error, and the reader of the error stream no message and no error. The
  -- connection is closed before the return only once the context has ended; after it, it is closed
  -- if there was one, and the function cannot start. And at a `select`, once the context has ended,
  -- there is a step that returns.
  pub forward-Answers :
      {s : ApiForwarding}
      → port < 2 ^ 16
      → Reach calls namespace pod port s
      → ((r : Option ForwardError)
          → answer s.phase ≡ some r
          → forward_api (with_events calls s.heard) namespace pod port ≡ some r)
        × (answer s.phase ≡ some none
            → Tunnelled (with_events calls s.heard) namespace pod port
              × (s.output ≡ Output.taken none)
              × (s.reader ≡ Reader.taken [] none))
        × (s.conn_closed ≡ true → is_returned s.phase ≡ false → s.context_done ≡ true)
        × (is_returned s.phase ≡ true → (s.conn_closed ≡ s.has_conn) × (s.after ≢ armed))
        × ((w : Wait)
            → s.phase ≡ waiting w
            → s.context_done ≡ true
            → (s' : ApiForwarding) × (step calls namespace pod port takes_context s ≡ some s')
              × (answer s'.phase ≡ some (some cancelled)))
  unfolding step take_context
  forward-Answers {s} small reach =
      let inv = Reach-Inv calls namespace pod port reach in
      (
        λ r h. answered_by r reach h,
        λ h.
            let good =
              forward_api-Tunnelled (with_events calls s.heard) namespace pod port small
                (answered_by none reach h) in
            (good, sent_output s none inv good.copied, sent_errors s [] none inv good.read),
        inv.in_time,
        λ q. (inv.closed q, not_armed inv q),
        λ w p c.
            subst
              (λ x.
                (s' : ApiForwarding) × (take_context s x ≡ some s')
                × (answer s'.phase ≡ some (some cancelled)))
              (sym p) (context_leaves s w c),
      )
