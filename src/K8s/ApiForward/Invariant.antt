-- ===== src/K8s/ApiForward/Invariant.antt =====
-- What holds of `Forward` through the API between any two steps.
use voidshell.Prelude.{
  ℕ, Bool, true, false, Option, none, some, List, [], ◌∷◌, Text, ◌≡◌, ◌≢◌, refl, arith, subst,
}
use voidshell.K8s.ApiForward.Ends.{remotes, reads}
use voidshell.K8s.Forward.{Calls, portforward_request}
use voidshell.K8s.DirectForward.{AfterFunc, armed, started, ran}
use voidshell.K8s.ApiForward.{
  Phase, configuring, transporting, requesting, negotiating, arming, creating_errors, creating_data,
  checking, waiting, resetting, stopping, closing_conn, returned, Reader, Output, ApiForwarding,
  negotiated, main_step,
}

abbrev pub received_output : Output → List (Option Text)
received_output (Output.taken e) = e ∷ []
received_output _ = []

abbrev pub received_errors : Reader → List (Text × Option Text)
received_errors (Reader.taken m f) = (m, f) ∷ []
received_errors _ = []

-- Before the copies begin, and before the reader.
abbrev pub is_setup : Phase → Bool
is_setup (waiting w) = false
is_setup (resetting w) = false
is_setup (stopping r) = false
is_setup (closing_conn r) = false
is_setup (returned r) = false
is_setup _ = true

abbrev pub is_unread : Phase → Bool
is_unread creating_data = false
is_unread (waiting w) = false
is_unread (resetting w) = false
is_unread (stopping r) = false
is_unread (closing_conn r) = false
is_unread (returned r) = false
is_unread _ = true

-- Before there is a connection, where there is one, and where nothing is registered.
abbrev pub is_unconnected : Phase → Bool
is_unconnected configuring = true
is_unconnected transporting = true
is_unconnected requesting = true
is_unconnected negotiating = true
is_unconnected _ = false

abbrev pub is_returned : Phase → Bool
is_returned (returned r) = true
is_returned _ = false

abbrev pub is_unregistered : Phase → Bool
is_unregistered configuring = true
is_unregistered transporting = true
is_unregistered requesting = true
is_unregistered negotiating = true
is_unregistered (checking protocol) = true
is_unregistered arming = true
is_unregistered (closing_conn r) = true
is_unregistered (returned r) = true
is_unregistered _ = false

abbrev pub is_connected : Phase → Bool
is_connected configuring = false
is_connected transporting = false
is_connected requesting = false
is_connected negotiating = false
is_connected (returned r) = false
is_connected _ = true

abbrev pub is_started : AfterFunc → Bool
is_started started = true
is_started ran = true
is_started _ = false

pub record Inv (s : ApiForwarding) : Type 0 where
  pub remote : remotes s.heard ≡ received_output s.output
  pub read : reads s.heard ≡ received_errors s.reader
  pub no_output : is_setup s.phase ≡ true → s.output ≡ Output.unstarted
  pub no_reader : is_unread s.phase ≡ true → s.reader ≡ Reader.unstarted
  pub unconnected : is_unconnected s.phase ≡ true → s.has_conn ≡ false
  pub connected : is_connected s.phase ≡ true → s.has_conn ≡ true
  pub unregistered : is_unregistered s.phase ≡ true → s.after ≢ armed
  pub unset : s.has_conn ≡ false → s.after ≡ AfterFunc.unset
  pub open_conn : s.has_conn ≡ false → s.conn_closed ≡ false
  pub closed : is_returned s.phase ≡ true → s.conn_closed ≡ s.has_conn
  pub in_time : s.conn_closed ≡ true → is_returned s.phase ≡ false → s.context_done ≡ true
  pub ended : is_started s.after ≡ true → s.context_done ≡ true

pub not_armed : {s : ApiForwarding} → Inv s → is_returned s.phase ≡ true → s.after ≢ armed
not_armed {s} inv q = inv.unregistered (by_phase s.phase q)
  where
    by_phase : (p : Phase) → is_returned p ≡ true → is_unregistered p ≡ true
    by_phase (returned r) q = refl
    by_phase _ q = cc

module _ (calls : Calls) (namespace pod : Text) (port : ℕ) where
  negotiated-Inv :
      (s : ApiForwarding) (chosen : Option Text)
      → s.phase ≡ negotiating
      → Inv s
      → Inv (negotiated s chosen)
  negotiated-Inv s none m inv = ground arith
  negotiated-Inv s (some protocol) m inv = ground arith

  pub main_step-Inv :
      (s s' : ApiForwarding) (p : Phase)
      → s.phase ≡ p
      → Inv s
      → main_step calls namespace pod port s p ≡ some s'
      → Inv s'
  unfolding main_step
  main_step-Inv s s' configuring m inv h = ground arith
  main_step-Inv s s' transporting m inv h = ground arith
  main_step-Inv s s' requesting m inv h = ground arith
  main_step-Inv s s' negotiating m inv h =
      let chosen = calls.negotiate (portforward_request namespace pod) calls.protocol_v1 in
      let same : negotiated s chosen ≡ s' = cc in subst Inv same (negotiated-Inv s chosen m inv)
  main_step-Inv s s' (checking protocol) m inv h = ground arith
  main_step-Inv s s' arming m inv h = ground arith
  main_step-Inv s s' creating_errors m inv h = ground arith
  main_step-Inv s s' creating_data m inv h = ground arith
  main_step-Inv s s' (waiting w) m inv h = cc
  main_step-Inv s s' (resetting w) m inv h = ground arith
  main_step-Inv s s' (stopping r) m inv h = ground arith
  main_step-Inv s s' (closing_conn r) m inv h = ground arith
  main_step-Inv s s' (returned r) m inv h = cc
