-- ===== src/Server/Session/First.antt =====
-- Which program a session runs, and in which terminal.
use voidshell.Server.Wire.{Request, Wire, reply}
use voidshell.Server.Session.{
  Terminal, no_terminal, Program, Handled, with_terminal, run_program, refused, ignored,
  handle_request, Served, serve_requests, replied,
}
use voidshell.Prelude.{
  ◌≡◌, ◌≢◌, refl, true, false, Option, none, some, List, [], ◌∷◌, ◌++◌, ap, sym, ◌∙◌, subst,
  append_assoc, append-nil,
}
use voidshell.Server.Session.Asks.{
  first_pty, terminal_of, Asks, Idle, IsServed, or_else, first_pty_snoc, next_terminal,
  next_terminal-first_pty, Asks-of_handled, handled-of_Asks,
}

module _ (wire : Wire) where
  -- A request that runs nothing leaves the rest to be served.
  IsServed-later :
      (earlier reqs : List Request) (req : Request)
      → ((p : Program) → ¬ Asks wire req (terminal_of wire (first_pty wire earlier)).tty p)
      → (o : Option (Program × Terminal × List Request))
      → IsServed wire (earlier ++ req ∷ []) reqs o
      → IsServed wire earlier (req ∷ reqs) o
  unfolding Idle
  IsServed-later earlier reqs req none_asked none h = (none_asked, h)
  IsServed-later earlier reqs req none_asked (some (p, t, rest)) h = record {
    before = req ∷ h.before;
    req = h.req;
    split = ap (λ l. req ∷ l) h.split;
    terminal =
        h.terminal
        ∙ ap (λ l. terminal_of wire (first_pty wire l)) (append_assoc earlier (req ∷ []) h.before);
    asks = h.asks;
    idle = (none_asked, h.idle);
  }

  serve_requests_from :
      (earlier reqs : List Request) (t : Terminal)
      → t ≡ terminal_of wire (first_pty wire earlier)
      → IsServed wire earlier reqs (serve_requests wire reqs t).started
  unfolding serve_requests Idle
  serve_requests_from earlier [] t e = tt
  serve_requests_from earlier (req ∷ reqs) t e =
      by_handled (handle_request wire req t) refl
        (λ next. serve_requests_from (earlier ++ req ∷ []) reqs next)
    where
      Result : Handled → Type 0
      Result h =
          IsServed wire earlier (req ∷ reqs)
            (elim h as (λ x. Served) [
              | with_terminal t' ↦ replied true (serve_requests wire reqs t')
              | run_program p ↦ record { replies = true ∷ []; started = some (p, t, reqs) }
              | refused ↦ replied false (serve_requests wire reqs t)
              | ignored ↦
                  let s = serve_requests wire reqs t in
                  record s { replies = reply req false s.replies }
            ]).started

      after :
          (h : Handled)
          → handle_request wire req t ≡ h
          → next_terminal wire h t ≡ terminal_of wire (first_pty wire (earlier ++ req ∷ []))
      after h q =
          ap (λ x. next_terminal wire x t) (sym q)
          ∙ subst
              (λ u.
                next_terminal wire (handle_request wire req u) u
                ≡ terminal_of wire
                    (or_else wire (first_pty wire earlier) (first_pty wire (req ∷ []))))
              (sym e) (next_terminal-first_pty wire (first_pty wire earlier) req)
          ∙ ap (terminal_of wire) (sym (first_pty_snoc wire earlier req))

      nothing :
          (h : Handled)
          → handle_request wire req t ≡ h
          → ((p : Program) → h ≢ run_program p)
          → (p : Program) → ¬ Asks wire req (terminal_of wire (first_pty wire earlier)).tty p
      nothing h q k p asked = k p (
          sym q
          ∙ handled-of_Asks wire req t p
              (subst (λ (u : Terminal). Asks wire req u.tty p) (sym e) asked))

      by_handled :
          (h : Handled)
          → handle_request wire req t ≡ h
          → ((next : Terminal)
              → next ≡ terminal_of wire (first_pty wire (earlier ++ req ∷ []))
              → IsServed wire (earlier ++ req ∷ []) reqs (serve_requests wire reqs next).started)
          → Result h
      by_handled (with_terminal t') q ih =
          IsServed-later earlier reqs req (nothing (with_terminal t') q (λ p z. cc))
            (serve_requests wire reqs t').started (ih t' (after (with_terminal t') q))
      by_handled (run_program p) q ih = record {
        before = [];
        req = req;
        split = refl;
        terminal = e ∙ ap (λ l. terminal_of wire (first_pty wire l)) (sym (append-nil earlier));
        asks = Asks-of_handled wire req t p q;
        idle = tt;
      }
      by_handled refused q ih =
          IsServed-later earlier reqs req (nothing refused q (λ p z. cc))
            (serve_requests wire reqs t).started (ih t (after refused q))
      by_handled ignored q ih =
          IsServed-later earlier reqs req (nothing ignored q (λ p z. cc))
            (serve_requests wire reqs t).started (ih t (after ignored q))

  -- A session runs the program that the first request to ask for one names, in the terminal of the
  -- first `pty-req` before it that can be read and whose terminal has no zero in its name; the
  -- requests after it are left. Where the session runs none, no request asks for a program. A
  -- `shell` asks with an empty payload, an `exec` with a script that has no zero, and a
  -- `subsystem` with the name `sftp` and without a terminal.
  pub serve_requests-IsServed :
      (reqs : List Request) → IsServed wire [] reqs (serve_requests wire reqs no_terminal).started
  unfolding first_pty
  serve_requests-IsServed reqs = serve_requests_from [] reqs no_terminal refl
