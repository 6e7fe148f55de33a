-- ===== src/Lib.antt =====
-- A model of voidshell, an SSH server that opens Kubernetes workspaces.
--
-- A client connects over SSH with a username that names a workspace. The server checks the
-- username, the authenticator finds the GitHub user that the offered key belongs to, and the two
-- names give the workspace its Kubernetes objects. A session or a forwarded connection acquires the
-- workspace, which sets up a pod where nobody uses it, and the last release deletes the pod. A
-- program runs in the pod by the exec request of the API, or over the pod's own SSH server.
--
-- The files:
--   Prelude: lists, texts, maps and Boolean tests that the parts share.
--   Start: cmd/voidshell/main.go, until the program serves, with ListenAndServe and
--     NewFromKubeconfig.
--   Config: internal/config/config.go.
--   Auth: internal/auth. Auth.Github is github.go (the cache of keys) and Auth.Authenticator is
--     authenticator.go, both as functions of one call. Auth.Callers is any number of calls at once: the
--     mutex of the cache is held for one access, so each access is a step of its own.
--   Workspace: internal/workspace. Workspace.Selector is selector.go (ParseSelector), and
--     Workspace.Identity is identity.go (the names of pods and claims).
--   Server: internal/server. Server.Validate is validate.go, Server.HostKey hostkey.go, and
--     Server.Lease lifecycle.go: each caller of acquireWorkspace is a program counter, `step` is one
--     shared access of it, and `Reach` has the interleavings of any number of callers. A lease is an
--     index into a store, as the source reaches it through a pointer. Server.Connect is the
--     public-key callback and the choice of the workspace in server.go. Server.Channel is what
--     handleConn does with a channel, and handleGlobalRequests; Server.Listen is Serve with its
--     connections as a step relation, and Server.Connection is handleConn with its goroutines, its
--     context and its deadline as another, which refines a connection of the first; Server.Serving
--     is Serve with such connections, and refines the first.
--     Server.Wire has the messages of channel requests. Server.Effects has what a handler does to the
--     workspace and the channel: a handler is the list of its effects, in their order, given what its
--     calls answer. Server.Session is the loop over a session's requests and the queue of terminal
--     sizes, Server.Run is runSession, and Server.Draining is the end of a session as a step relation,
--     with the goroutine that drains its requests, all of session.go; Server.Relay is proxySession of
--     sshproxy.go as one sequence, Server.Proxying the same with its goroutines as a step relation, and
--     Server.Proxy its loop over the client's requests; Server.Direct is portfwd.go.
--   K8s: internal/k8s. K8s.Pods has the objects of the API, K8s.Build is buildPod with
--     configureSSHPod, K8s.Monad the calls that may fail, K8s.Lifecycle lifecycle.go (DeletePod,
--     ensurePVC, ensurePod, waitForPodReady), and K8s.Ssh the credentials of ssh.go with
--     EnsureWorkspace. The manager is passed as a state with the world around it. K8s.Dial is
--     OpenWorkspaceSSH, K8s.Exec is attacher.go, K8s.Forward is Forward through the API: its
--     request, its headers, and what it returns for the events of its streams; K8s.ApiForward is the
--     same with its goroutines as a step relation. K8s.ForwardSsh is the loop of forwardSSH with its
--     goroutines as a step relation, and K8s.DirectForward is forwardSSH around that loop. K8s.Route
--     puts the two ways of Forward together, and K8s.Decimal prints the port.
-- The other modules below these are named for what they prove, and each Examples has tests.
--
-- A text is a list of code points, so a length counts characters; an index of Go counts bytes,
-- which is the same after normalizeSegment and for usernames that the server accepts.
--
-- Fuel: the loops of DeletePod, ensurePod and waitForPodReady, and the call of ensurePod to itself,
-- take fuel, one unit for each request for the pod. Fuel above the time that the context has left is
-- enough where each such request takes time; in EnsureWorkspace its own timeout bounds that time. K8s.Decimal prints five digits, which are enough for
-- a port of 16 bits. The step relations have no fuel.
--
-- Parameters, since their code is not in the repository: SHA-256 and the mapping to lower case; the
-- HTTP client with the line scanner, and the parser of authorized keys; the API server, the clock
-- and the contexts, the generation and parsing of SSH keys, and the check of IP addresses; the
-- network and the SSH handshake; the client library with its streams for programs and ports; the
-- decoding of the payloads of SSH requests, and the answers of a workspace's SSH server; YAML, the
-- file system, the environment, strconv.Atoi and the printing of the server's port. Hypotheses on
-- them are named and documented: IsDigest, KeepsLower, IsForward, IsTimed, IsVerifying and IsCodec.
--
-- Simplified: in the functions of Auth.Github and Auth.Authenticator time advances only during
-- fetches, and no other call comes between; Auth.Callers has neither. What a page of keys says
-- depends on when the request for it is made. In Server.Lease a pod of
-- the cluster is what the last calls of EnsureWorkspace and DeletePod for it have come to. The
-- storage size of the configuration is taken to be a valid quantity: resource.MustParse in
-- ensurePVC panics otherwise. A handler of a channel is one
-- sequence of effects; what runs beside it (the replies to requests while a program runs, the
-- watching of a context) is in it only where the handler waits for it, but for proxySession,
-- forwardSSH and the end of a session in Server.Draining. Errors of the Kubernetes part have
-- no texts.
--
-- Not modelled: the logs; the bytes that io.Copy moves between streams in proxySession, Forward
-- and forwardSSH, of which only the ends count; how long the deadline of a connection and the drain
-- timer are; and the flag and the signals of cmd/voidshell/main.go. The container images, charts and
-- scripts of the repository are not Go code.

pub mod Prelude
pub mod Workspace
pub mod Server
pub mod Auth
pub mod K8s
pub mod Config
pub mod Start
