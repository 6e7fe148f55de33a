-- ===== src/K8s/ApiForward/Remaining.antt =====
-- The steps of `Forward` through the API do what the function of K8s.Forward says for the events
-- that they receive.
use voidshell.Prelude.{
  ℕ, not, Option, none, some, List, [], ◌∷◌, ◌++◌, Text, if◌then◌else◌, ◌≡◌, refl, arith,
  append_assoc, ap, sym, ◌∙◌, subst,
}
use voidshell.K8s.Forward
use voidshell.K8s.Forward.{
  Event, context_ended, local_failed, remote_done, errors_read, ForwardError, no_rest_config,
  connecting, wrong_protocol, creating_stream, Wait, anything, error_stream, output, Next, receive,
  receives, Calls, portforward_request, error_headers, data_headers, forward_streams, forward_api,
}
use voidshell.K8s.ApiForward.{
  Phase, configuring, transporting, requesting, negotiating, arming, creating_errors, creating_data,
  checking, waiting, resetting, stopping, closing_conn, returned, Reader, Input, Output,
  ApiForwarding, negotiated, main_step, goes_to, take_context, take_local, take_remote, take_errors,
  Move, on_main, takes_context, takes_local, takes_remote, takes_errors, input_closes, context_ends,
  func_starts, func_closes, reader_ends, input_ends, output_ends, around, step, Reach, start, later,
}

-- The library with these events.
abbrev pub with_events : Calls → List Event → Calls
with_events calls events = record calls { events = events }

module _ (calls : Calls) (namespace pod : Text) (port : ℕ) where
  abbrev at_data : List Event → Option (Option ForwardError)
  at_data events =
      if not (calls.create_stream (data_headers port))
      then some (some creating_stream)
      else receives anything events

  abbrev at_errors : List Event → Option (Option ForwardError)
  at_errors events =
      if not (calls.create_stream (error_headers port))
      then some (some creating_stream)
      else at_data events

  abbrev at_negotiation : List Event → Option (Option ForwardError)
  at_negotiation events =
      forward_streams (with_events calls events) port
        (calls.negotiate (portforward_request namespace pod) calls.protocol_v1)

  abbrev at_request : List Event → Option (Option ForwardError)
  at_request events =
      if not calls.makes_request then some (some connecting) else at_negotiation events

  -- What `Forward` still comes to in a phase, for the events that come.
  abbrev pub remaining : Phase → List Event → Option (Option ForwardError)
  remaining configuring events = forward_api (with_events calls events) namespace pod port
  remaining transporting events =
      if not calls.makes_transport then some (some connecting) else at_request events
  remaining requesting events = at_request events
  remaining negotiating events = at_negotiation events
  remaining (checking protocol) events =
      forward_streams (with_events calls events) port (some protocol)
  remaining arming events = at_errors events
  remaining creating_errors events = at_errors events
  remaining creating_data events = at_data events
  remaining (waiting w) events = receives w events
  remaining (resetting w) events = receives w events
  remaining (stopping r) events = some r
  remaining (closing_conn r) events = some r
  remaining (returned r) events = some r

  negotiated-remaining :
      (s : ApiForwarding) (chosen : Option Text) (events : List Event)
      → (forward_streams (with_events calls events) port chosen
          ≡ remaining (negotiated s chosen).phase events)
        × ((negotiated s chosen).heard ≡ s.heard)
  unfolding forward_streams
  negotiated-remaining s none events = (refl, refl)
  negotiated-remaining s (some protocol) events = (refl, refl)

  main_step-remaining :
      (s s' : ApiForwarding) (p : Phase) (events : List Event)
      → main_step calls namespace pod port s p ≡ some s'
      → (remaining p events ≡ remaining s'.phase events) × (s'.heard ≡ s.heard)
  unfolding main_step forward_api forward_streams
  main_step-remaining s s' configuring events h = ground arith
  main_step-remaining s s' transporting events h = ground arith
  main_step-remaining s s' requesting events h = ground arith
  main_step-remaining s s' negotiating events h =
      let chosen = calls.negotiate (portforward_request namespace pod) calls.protocol_v1 in
      let same : negotiated s chosen ≡ s' = cc in
      subst (λ x. (remaining negotiating events ≡ remaining x.phase events) × (x.heard ≡ s.heard))
        same (negotiated-remaining s chosen events)
  main_step-remaining s s' (checking protocol) events h = ground arith
  main_step-remaining s s' arming events h = ground arith
  main_step-remaining s s' creating_errors events h = ground arith
  main_step-remaining s s' creating_data events h = ground arith
  main_step-remaining s s' (waiting w) events h = cc
  main_step-remaining s s' (resetting w) events h = ground arith
  main_step-remaining s s' (stopping r) events h = ground arith
  main_step-remaining s s' (closing_conn r) events h = ground arith
  main_step-remaining s s' (returned r) events h = cc

  goes_to-remaining :
      (e : Event) (w : Wait) (n : Next) (events : List Event)
      → receive w e ≡ n
      → receives w (e ∷ events) ≡ remaining (goes_to e n) events
  unfolding receives
  goes_to-remaining e w (Forward.returned r) events h = rw (h, receives) refl
  goes_to-remaining context_ended w (Forward.waits w') events h = rw (h, receives) refl
  goes_to-remaining (local_failed x) w (Forward.waits w') events h = rw (h, receives) refl
  goes_to-remaining (remote_done x) w (Forward.waits w') events h = rw (h, receives) refl
  goes_to-remaining (errors_read x y) w (Forward.waits w') events h = rw (h, receives) refl

  -- An event was received at a `select`.
  Hears : ApiForwarding → Phase → ApiForwarding → Type 0
  Hears s p s' =
      (w : Wait) × (e : Event) × (p ≡ waiting w)
      × (s'.phase ≡ goes_to e (receive w e))
      × (s'.heard ≡ s.heard ++ e ∷ [])

  take_context-Hears :
      (s s' : ApiForwarding) (p : Phase) → take_context s p ≡ some s' → Hears s p s'
  unfolding take_context Hears
  take_context-Hears s s' (waiting w) h = (w, context_ended, refl, ground arith, ground arith)
  take_context-Hears s s' _ h = cc

  take_local-Hears :
      (s s' : ApiForwarding) (p : Phase) (i : Input) → take_local s p i ≡ some s' → Hears s p s'
  unfolding take_local Hears
  take_local-Hears s s' (waiting w) (Input.sent e) h =
      (w, local_failed e, refl, ground arith, ground arith)
  take_local-Hears s s' _ _ h = cc

  take_remote-Hears :
      (s s' : ApiForwarding) (p : Phase) (o : Output) → take_remote s p o ≡ some s' → Hears s p s'
  unfolding take_remote Hears
  take_remote-Hears s s' (waiting w) (Output.sent e) h =
      (w, remote_done e, refl, ground arith, ground arith)
  take_remote-Hears s s' _ _ h = cc

  take_errors-Hears :
      (s s' : ApiForwarding) (p : Phase) (r : Reader) → take_errors s p r ≡ some s' → Hears s p s'
  unfolding take_errors Hears
  take_errors-Hears s s' (waiting w) (Reader.sent m f) h =
      (w, errors_read m f, refl, ground arith, ground arith)
  take_errors-Hears s s' _ _ h = cc

  -- The events received so far and those that come.
  unfoldable pub Follows : ApiForwarding → Type 0
  Follows s =
      (events : List Event)
      → forward_api (with_events calls (s.heard ++ events)) namespace pod port
        ≡ remaining s.phase events

  Hears-Follows : (s s' : ApiForwarding) → Follows s → Hears s s.phase s' → Follows s'
  unfolding Follows Hears
  Hears-Follows s s' inv (w, e, at, to, more) events =
      ap (λ l. forward_api (with_events calls (l ++ events)) namespace pod port) more
      ∙ ap (λ l. forward_api (with_events calls l) namespace pod port)
          (append_assoc s.heard (e ∷ []) events)
      ∙ inv (e ∷ events)
      ∙ ap (λ p. remaining p (e ∷ events)) at
      ∙ goes_to-remaining e w (receive w e) events refl
      ∙ ap (λ p. remaining p events) (sym to)

  around_kept :
      (m : Move) (s s' : ApiForwarding)
      → around m s ≡ some s'
      → (s'.phase ≡ s.phase) × (s'.heard ≡ s.heard)
  unfolding around
  around_kept (reader_ends x y) s s' h = ground arith
  around_kept (input_ends x) s s' h = ground arith
  around_kept input_closes s s' h = ground arith
  around_kept (output_ends x) s s' h = ground arith
  around_kept context_ends s s' h = ground arith
  around_kept func_starts s s' h = ground arith
  around_kept func_closes s s' h = ground arith
  around_kept _ s s' h = cc

  kept-Follows :
      (s s' : ApiForwarding)
      → Follows s
      → ((events : List Event)
          → (remaining s.phase events ≡ remaining s'.phase events) × (s'.heard ≡ s.heard))
      → Follows s'
  unfolding Follows
  kept-Follows s s' inv kept events =
      let (same, heard) = kept events in
      ap (λ l. forward_api (with_events calls (l ++ events)) namespace pod port) heard
      ∙ inv events
      ∙ same

  around-Follows : (m : Move) (s s' : ApiForwarding) → Follows s → around m s ≡ some s' → Follows s'
  around-Follows m s s' inv h =
      let (at, heard) = around_kept m s s' h in
      kept-Follows s s' inv (λ events. (ap (λ p. remaining p events) (sym at), heard))

  step-Follows :
      (m : Move) (s s' : ApiForwarding)
      → Follows s
      → step calls namespace pod port m s ≡ some s'
      → Follows s'
  unfolding step
  step-Follows on_main s s' inv h =
      kept-Follows s s' inv (λ events. main_step-remaining s s' s.phase events h)
  step-Follows takes_context s s' inv h = Hears-Follows s s' inv (take_context-Hears s s' s.phase h)
  step-Follows takes_local s s' inv h =
      Hears-Follows s s' inv (take_local-Hears s s' s.phase s.input h)
  step-Follows takes_remote s s' inv h =
      Hears-Follows s s' inv (take_remote-Hears s s' s.phase s.output h)
  step-Follows takes_errors s s' inv h =
      Hears-Follows s s' inv (take_errors-Hears s s' s.phase s.reader h)
  step-Follows m s s' inv h = around-Follows m s s' inv h

  pub Reach-Follows : {s : ApiForwarding} → Reach calls namespace pod port s → Follows s
  unfolding Follows
  Reach-Follows start = λ events. refl
  Reach-Follows (later m r h) = step-Follows m _ _ (Reach-Follows r) h
