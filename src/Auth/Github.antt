-- ===== src/Auth/Github.antt =====
-- internal/auth/github.go: fetching a user's keys, and the cache of the fetched ones.
use voidshell.Prelude.{
  ℕ, ◌-◌, ◌≤◌, Bool, not, Option, none, some, List, [], ◌∷◌, ◌++◌, ltb, ◌==◌, if◌then◌else◌, Text,
  codes, put, trim_space, is_empty,
}

-- A public key, as the bytes of `Marshal()`, of which alone the program makes use.
abbrev pub PublicKey : Type 0
PublicKey = List ℕ

-- What comes back for a request: no request could be built, none was answered, or a response with
-- its status, the lines of its body, and whether the scanner stopped at an error.
pub data Reply : Type 0 where
  bad_url : Reply
  unreachable : Reply
  response : (status : ℕ) → (lines : List Text) → (broken : Bool) → Reply

-- The network and `ssh.ParseAuthorizedKey`: the reply to a request made at a time, the time at
-- which that request is over, and the key on a line.
pub record Net : Type 0 where
  pub reply : Text → ℕ → Reply
  pub over : Text → ℕ → ℕ
  pub parse_key : Text → Option PublicKey

-- Time does not run backwards while a request is under way.
pub record IsForward (net : Net) : Type 0 where
  pub forward : (url : Text) (now : ℕ) → now ≤ net.over url now

pub data FetchError : Type 0 where
  building_request fetching reading : FetchError
  http_status : ℕ → FetchError

pub data Result {ℓ} (A : Type ℓ) : Type ℓ where
  ok : A → Result A
  err : FetchError → Result A

pub record CacheEntry : Type 0 where
  pub keys : List PublicKey
  pub fetched_at : ℕ

-- `keyCache`, with the clock; a lifetime that is not positive is 0.
pub record KeyCache : Type 0 where
  pub entries : Text → Option CacheEntry
  pub ttl : ℕ
  pub base_url : Text
  pub clock : ℕ

module _ (net : Net) where
  -- The loop over the lines of the body: blank lines and lines that do not parse are skipped.
  unfoldable pub scan_keys : List Text → List PublicKey
  scan_keys [] = []
  scan_keys (text ∷ rest) =
      let line = trim_space text in
      let keys = scan_keys rest in
      if is_empty line
      then keys
      else elim (net.parse_key line) [ none ↦ keys | some pk ↦ pk ∷ keys ]

  unfoldable pub read_reply : Reply → Result (List PublicKey)
  unfolding scan_keys
  read_reply bad_url = err building_request
  read_reply unreachable = err fetching
  read_reply (response status lines broken) =
      if not (status == 200)
      then err (http_status status)
      else if broken
      then err reading
      else ok (scan_keys lines)

  abbrev pub keys_url : Text → Text → Text
  keys_url base_url user = base_url ++ (b'/' ∷ (user ++ codes ".keys"))

  -- The keys that a fetch begun at a time brings.
  unfoldable pub fetch_keys : Text → Text → ℕ → Result (List PublicKey)
  unfolding read_reply
  fetch_keys base_url user now = read_reply (net.reply (keys_url base_url user) now)

  -- `ok && time.Since(entry.fetchedAt) < c.ttl`
  unfoldable pub fresh_keys : KeyCache → Option CacheEntry → Option (List PublicKey)
  fresh_keys c none = none
  fresh_keys c (some entry) =
      if ltb (c.clock - entry.fetched_at) c.ttl then some entry.keys else none

  -- The end of `keys`, where the cache does not serve: the fetched keys are stored under the time
  -- at which the fetch was over.
  unfoldable pub refetch : KeyCache → Text → KeyCache × Result (List PublicKey)
  unfolding put
  refetch c user =
      let now = net.over (keys_url c.base_url user) c.clock in
      elim (fetch_keys c.base_url user c.clock) [
        | err e ↦ (record c { clock = now }, err e)
        | ok fetched ↦ (
          record c {
            entries = put user (some (record { keys = fetched; fetched_at = now })) c.entries;
            clock = now;
          },
          ok fetched,
        )
      ]

  -- `keys`
  unfoldable pub cached_keys : KeyCache → Text → KeyCache × Result (List PublicKey)
  cached_keys c user = elim (fresh_keys c (c.entries user)) [
    | some keys ↦ (c, ok keys)
    | none ↦ refetch c user
  ]
