-- ===== src/Server/Exit.antt =====
-- A session releases its workspace before it tells the client how the program ended.
use voidshell.Server.Wire.{Request, Wire}
use voidshell.Server.Session.{Program, Terminal, serve_requests, no_terminal}
use voidshell.Server.Effects.{
  Phase, fresh, freed, told, phases, has_release, release_once, advance, Trace, accept,
  close_channel, join_requests, then_do, acquire, stop_sizes, close_ssh, attach, close_remote,
  exit_status, open_ssh, open_remote, relay,
}
use voidshell.Server.Run.{handle_session, run_session, run_program, with_term, exit_code}
use voidshell.Server.Run
use voidshell.Server.Relay.{proxy_session, take_exit, tell_exit, told_exit}
use voidshell.Server.Relay
use voidshell.Prelude.{
  ◌≡◌, refl, Bool, true, false, Option, none, some, List, [], ◌∷◌, inl, inr, ◌⊎◌, ◌++◌, ap, ℕ,
}

phases-append :
    (ph : Phase) (tr tr' : Trace) (mid : Phase)
    → phases ph tr ≡ some mid
    → phases ph (tr ++ tr') ≡ phases mid tr'
unfolding phases
phases-append ph [] tr' mid h = ap (λ o. elim o [ none ↦ none | some x ↦ phases x tr' ]) h
phases-append ph (e ∷ tr) tr' mid h = by_step (advance ph e) (λ ph'. phases-append ph' tr tr' mid) h
  where
    by_step :
        (o : Option Phase)
        → ((ph' : Phase) → phases ph' tr ≡ some mid → phases ph' (tr ++ tr') ≡ phases mid tr')
        → elim o as (λ x. Option Phase) [ none ↦ none | some ph' ↦ phases ph' tr ] ≡ some mid
        → elim o as (λ x. Option Phase) [ none ↦ none | some ph' ↦ phases ph' (tr ++ tr') ]
          ≡ phases mid tr'
    by_step none k q = cc
    by_step (some ph') k q = k ph' q

program_told :
    (o : Option ℕ) (p : Program) (t : Terminal)
    → phases fresh (
        let (ran, code) = exit_code o (accept ∷ acquire true ∷ attach p t ∷ []) in
        then_do (exit_status code) (release_once ran))
      ≡ some told
unfolding phases advance exit_code release_once has_release
program_told none p t = refl
program_told (some code) p t = refl

session_told :
    (a : Run.Answers) (p : Program) (t : Terminal)
    → phases fresh (run_session a p t (accept ∷ [])) ≡ some told
unfolding phases advance run_session run_program
session_told a p t = by_acquire a.acquires
  where
    by_acquire :
        (acquires : Bool)
        → phases fresh
            (run_session (record { acquires = acquires; runs = a.runs }) p t (accept ∷ []))
          ≡ some told
    by_acquire false = refl
    by_acquire true = program_told (a.runs (with_term p t) t) (with_term p t) t

-- What a session's trace comes to: the client is told how the program ended, if one was run.
abbrev pub phase_of {ℓ} : {A : Type ℓ} → Option A → Phase
phase_of none = fresh
phase_of (some _) = told

handled_in_order :
    (wire : Wire) (a : Run.Answers) (reqs : List Request)
    → phases fresh (handle_session wire a reqs)
      ≡ some (phase_of (serve_requests wire reqs no_terminal).started)
unfolding handle_session phases advance
handled_in_order wire a reqs = by_started (serve_requests wire reqs no_terminal).started
  where
    ending : Trace
    ending = close_channel ∷ join_requests ∷ stop_sizes ∷ close_channel ∷ []

    by_started :
        (o : Option (Program × Terminal × List Request))
        → phases fresh (elim o [
          | none ↦ accept ∷ stop_sizes ∷ close_channel ∷ []
          | some (p, t, rest) ↦
              run_session a p t (accept ∷ [])
              ++ close_channel ∷ join_requests ∷ stop_sizes ∷ close_channel ∷ []
        ])
          ≡ some (phase_of o)
    by_started none = refl
    by_started (some (p, t, rest)) =
        phases-append fresh (run_session a p t (accept ∷ [])) ending told (session_told a p t)

proxied_in_order :
    (a : Relay.Answers)
    → (phases fresh (proxy_session a) ≡ some told)
      ⊎ (phases fresh (proxy_session a) ≡ some freed)
        × (a.cancelled ≡ true)
        × ((take_exit none a.remote_requests).0 ≡ none)
unfolding proxy_session tell_exit told_exit phases advance release_once has_release
proxied_in_order a = by_answers a.acquires a.opens_ssh a.opens_remote
  where
    Told : Relay.Answers → Type 0
    Told b =
        (phases fresh (proxy_session b) ≡ some told)
        ⊎ (phases fresh (proxy_session b) ≡ some freed)
          × (b.cancelled ≡ true)
          × ((take_exit none b.remote_requests).0 ≡ none)

    proxied : Option Request → Bool → Trace
    proxied exit cancelled = then_do close_channel (
        release_once (
          then_do close_ssh (
            then_do close_remote (
              told_exit exit cancelled
                (release_once (accept ∷ acquire true ∷ open_ssh ∷ open_remote ∷ relay ∷ []))))))

    by_exit :
        (exit : Option Request) (cancelled : Bool)
        → (phases fresh (proxied exit cancelled) ≡ some told)
          ⊎ (phases fresh (proxied exit cancelled) ≡ some freed)
            × (cancelled ≡ true)
            × (exit ≡ none)
    by_exit (some req) _ = inl refl
    by_exit none true = inr (refl, refl, refl)
    by_exit none false = inl refl

    by_answers :
        (acquires opens_ssh opens_remote : Bool)
        → Told (record {
          acquires = acquires;
          opens_ssh = opens_ssh;
          opens_remote = opens_remote;
          remote_requests = a.remote_requests;
          cancelled = a.cancelled;
        })
    by_answers false _ _ = inl refl
    by_answers true false _ = inl refl
    by_answers true true false = inl refl
    by_answers true true true = by_exit (take_exit none a.remote_requests).0 a.cancelled

-- In a session that the server runs, and in one that the workspace's SSH server runs, whatever the
-- calls answer: the workspace is used only between its acquisition and its one release, and the
-- client is told how the program ended at most once, after the release. The client is told in every
-- session of the first kind in which a program is run, and in every session of the second kind but
-- those in which the context has ended without an exit request from the workspace's server.
pub sessions_in_order :
    ((wire : Wire) (a : Run.Answers) (reqs : List Request)
      → phases fresh (handle_session wire a reqs)
        ≡ some (phase_of (serve_requests wire reqs no_terminal).started))
    × ((a : Relay.Answers)
        → (phases fresh (proxy_session a) ≡ some told)
          ⊎ (phases fresh (proxy_session a) ≡ some freed)
            × (a.cancelled ≡ true)
            × ((take_exit none a.remote_requests).0 ≡ none))
sessions_in_order = (handled_in_order, proxied_in_order)
