-- ===== src/K8s/ApiForward/Heard.antt =====
-- What the `select`s of `Forward` have received, its goroutines have sent.
use voidshell.Prelude.{
  ℕ, true, false, some, [], ◌∷◌, ◌++◌, Text, ◌≡◌, refl, arith, ap, ◌∙◌, subst, append-nil,
}
use voidshell.K8s.ApiForward.Ends.{remotes, reads, remotes-append, reads-append}
use voidshell.K8s.Forward
use voidshell.K8s.Forward.{
  Event, context_ended, local_failed, remote_done, errors_read, Wait, anything, error_stream,
  output, receive, Calls, portforward_request,
}
use voidshell.K8s.ApiForward.{
  Phase, waiting, Reader, Input, Output, ApiForwarding, goes_to, hear, take_context, take_local,
  take_remote, take_errors, Move, on_main, takes_context, takes_local, takes_remote, takes_errors,
  input_closes, context_ends, func_starts, func_closes, reader_ends, input_ends, output_ends,
  around, step, Reach, start, later,
}
use voidshell.K8s.ApiForward.Invariant.{
  Inv, received_output, received_errors, is_setup, is_unread, is_unconnected, is_returned,
  is_unregistered, is_connected, main_step-Inv,
}

-- After an event nothing is set up, and the connection is still there.
goes_to_flags :
    (e : Event) (n : Forward.Next)
    → (is_setup (goes_to e n) ≡ false)
      × (is_unread (goes_to e n) ≡ false)
      × (is_unconnected (goes_to e n) ≡ false)
      × (is_connected (goes_to e n) ≡ true)
      × (is_unregistered (goes_to e n) ≡ false)
      × (is_returned (goes_to e n) ≡ false)
goes_to_flags e (Forward.returned r) = (refl, refl, refl, refl, refl, refl)
goes_to_flags (remote_done e) (Forward.waits w) = (refl, refl, refl, refl, refl, refl)
goes_to_flags context_ended (Forward.waits w) = (refl, refl, refl, refl, refl, refl)
goes_to_flags (local_failed e) (Forward.waits w) = (refl, refl, refl, refl, refl, refl)
goes_to_flags (errors_read m f) (Forward.waits w) = (refl, refl, refl, refl, refl, refl)

hear-Inv :
    (e : Event) (w : Wait) (s : ApiForwarding) (i : Input) (o : Output) (r : Reader)
    → s.phase ≡ waiting w
    → Inv s
    → remotes s.heard ++ remotes (e ∷ []) ≡ received_output o
    → reads s.heard ++ reads (e ∷ []) ≡ received_errors r
    → Inv (record (hear e s w) { input = i; output = o; reader = r })
hear-Inv e w s i o r m inv outs errs =
    let (setup, unread, unconnected, connected, unregistered, over) =
      goes_to_flags e (receive w e) in
    record {
      remote = remotes-append s.heard (e ∷ []) ∙ outs;
      read = reads-append s.heard (e ∷ []) ∙ errs;
      no_output = λ q. cc;
      no_reader = λ q. cc;
      unconnected = λ q. cc;
      connected = λ q. inv.connected (ap is_connected m);
      unregistered = λ q. cc;
      unset = inv.unset;
      open_conn = inv.open_conn;
      closed = λ q. cc;
      in_time = λ c q. inv.in_time c (ap is_returned m);
      ended = inv.ended;
    }

take_context-Inv :
    (s s' : ApiForwarding) (p : Phase) → s.phase ≡ p → Inv s → take_context s p ≡ some s' → Inv s'
unfolding take_context remotes reads
take_context-Inv s s' (waiting w) m inv h =
    let same : hear context_ended s w ≡ s' = ground arith in
    subst Inv same (
      hear-Inv context_ended w s s.input s.output s.reader m inv
        (append-nil (remotes s.heard) ∙ inv.remote) (append-nil (reads s.heard) ∙ inv.read))
take_context-Inv s s' _ m inv h = cc

take_local-Inv :
    (s s' : ApiForwarding) (p : Phase) (i : Input)
    → s.phase ≡ p
    → Inv s
    → take_local s p i ≡ some s'
    → Inv s'
unfolding take_local remotes reads
take_local-Inv s s' (waiting w) (Input.sent e) m inv h =
    let same : record (hear (local_failed e) s w) { input = Input.finished } ≡ s' = ground arith in
    subst Inv same (
      hear-Inv (local_failed e) w s Input.finished s.output s.reader m inv
        (append-nil (remotes s.heard) ∙ inv.remote) (append-nil (reads s.heard) ∙ inv.read))
take_local-Inv s s' _ _ m inv h = cc

take_remote-Inv :
    (s s' : ApiForwarding) (p : Phase) (o : Output)
    → s.phase ≡ p
    → s.output ≡ o
    → Inv s
    → take_remote s p o ≡ some s'
    → Inv s'
unfolding take_remote remotes reads
take_remote-Inv s s' (waiting w) (Output.sent e) m q inv h =
    let same : record (hear (remote_done e) s w) { output = Output.taken e } ≡ s' = ground arith in
    subst Inv same (
      hear-Inv (remote_done e) w s s.input (Output.taken e) s.reader m inv
        (ap (λ l. l ++ e ∷ []) (inv.remote ∙ ap received_output q))
        (append-nil (reads s.heard) ∙ inv.read))
take_remote-Inv s s' _ _ m q inv h = cc

take_errors-Inv :
    (s s' : ApiForwarding) (p : Phase) (r : Reader)
    → s.phase ≡ p
    → s.reader ≡ r
    → Inv s
    → take_errors s p r ≡ some s'
    → Inv s'
unfolding take_errors remotes reads
take_errors-Inv s s' (waiting w) (Reader.sent x y) m q inv h =
    let same : record (hear (errors_read x y) s w) { reader = Reader.taken x y } ≡ s' =
      ground arith in
    subst Inv same (
      hear-Inv (errors_read x y) w s s.input s.output (Reader.taken x y) m inv
        (append-nil (remotes s.heard) ∙ inv.remote)
        (ap (λ l. l ++ (x, y) ∷ []) (inv.read ∙ ap received_errors q)))
take_errors-Inv s s' _ _ m q inv h = cc

around-Inv : (m : Move) (s s' : ApiForwarding) → Inv s → around m s ≡ some s' → Inv s'
unfolding around
around-Inv (reader_ends x y) s s' inv h = ground arith
around-Inv (input_ends x) s s' inv h = ground arith
around-Inv input_closes s s' inv h = ground arith
around-Inv (output_ends x) s s' inv h = ground arith
around-Inv context_ends s s' inv h = ground arith
around-Inv func_starts s s' inv h = ground arith
around-Inv func_closes s s' inv h = ground arith
around-Inv _ s s' inv h = cc

module _ (calls : Calls) (namespace pod : Text) (port : ℕ) where
  step-Inv :
      (m : Move) (s s' : ApiForwarding)
      → Inv s
      → step calls namespace pod port m s ≡ some s'
      → Inv s'
  unfolding step
  step-Inv on_main s s' inv h = main_step-Inv calls namespace pod port s s' s.phase refl inv h
  step-Inv takes_context s s' inv h = take_context-Inv s s' s.phase refl inv h
  step-Inv takes_local s s' inv h = take_local-Inv s s' s.phase s.input refl inv h
  step-Inv takes_remote s s' inv h = take_remote-Inv s s' s.phase s.output refl refl inv h
  step-Inv takes_errors s s' inv h = take_errors-Inv s s' s.phase s.reader refl refl inv h
  step-Inv m s s' inv h = around-Inv m s s' inv h

  pub Reach-Inv : {s : ApiForwarding} → Reach calls namespace pod port s → Inv s
  unfolding remotes reads
  Reach-Inv start = ground arith
  Reach-Inv (later m r h) = step-Inv m _ _ (Reach-Inv r) h
