-- ===== src/Lease.antt =====
-- internal/adapters/redis/lease_store.go: leases as keys of a redis server with an owner's token. The
-- server is an argument, with what its commands do to the value of a key; the two scripts are those
-- of the source.
use kokoro_scheduler.Domain.Time.{Duration, millisecond}
pub mod Exclusion
use kokoro_scheduler.Base.{
  ℕ, zero, suc, ◌+◌, ◌-◌, ◌*◌, ◌/◌, ◌%◌, ◌^◌, ◌≤◌, ◌<◌, min, max, ◌≡◌, refl, sym, ap, subst, ◌∙◌,
  ◌≢◌, ◌↔◌, ◌⊎◌, inl, inr, Bool, true, false, not, ◌&&◌, ◌||◌, Option, none, some, List, [], ◌∷◌,
  ◌++◌, map, arith, if◌then◌else◌, ◌==◌, ltb, leb, Text, Result, ok, err, ◌>>=◌, ◌>>◌, fail_if, ℤ,
  pos, negsuc, invalid, text_eq, lease_lost, leb_ℤ, pos_part, is_empty, lease_arguments, external,
}

-- The commands that are used: `SET key value NX PX ttl`, `GET`, `DEL` and `PEXPIRE`. A key that has
-- expired is answered like one that was never set.
pub record Redis : Type 1 where
  pub State : Type 0
  pub get : State → Text → Option Text
  pub set_nx : Text → Text → Duration → State → Bool × State
  pub del : Text → State → ℕ × State
  pub pexpire : Text → ℤ → State → ℕ × State

-- The documented behaviour of the commands on the values.
pub record IsServer (server : Redis) : Type 0 where
  pub set_nx-free :
      (key value : Text) (ttl : Duration) (s : server.State)
      → server.get s key ≡ none
      → ((server.set_nx key value ttl s).0 ≡ true)
        × (server.get (server.set_nx key value ttl s).1 key ≡ some value)
  pub set_nx-held :
      (key value held : Text) (ttl : Duration) (s : server.State)
      → server.get s key ≡ some held
      → ((server.set_nx key value ttl s).0 ≡ false)
        × (server.get (server.set_nx key value ttl s).1 key ≡ some held)
  pub set_nx-other :
      (key value other : Text) (ttl : Duration) (s : server.State)
      → text_eq key other ≡ false
      → server.get (server.set_nx key value ttl s).1 other ≡ server.get s other
  pub del-key : (key : Text) (s : server.State) → server.get (server.del key s).1 key ≡ none
  pub del-other :
      (key other : Text) (s : server.State)
      → text_eq key other ≡ false
      → server.get (server.del key s).1 other ≡ server.get s other
  -- A time to live that is not positive deletes the key.
  pub pexpire-held :
      (key held : Text) (n : ℕ) (s : server.State)
      → server.get s key ≡ some held
      → 1 ≤ n
      → ((server.pexpire key (pos n) s).0 ≡ 1)
        × (server.get (server.pexpire key (pos n) s).1 key ≡ some held)
  pub pexpire-drop :
      (key : Text) (s : server.State) → server.get (server.pexpire key (pos 0) s).1 key ≡ none
  pub pexpire-other :
      (key other : Text) (n : ℤ) (s : server.State)
      → text_eq key other ≡ false
      → server.get (server.pexpire key n s).1 other ≡ server.get s other

pub record Lease : Type 0 where
  pub key : Text
  pub token : Text

abbrev pub is_token : Option Text → Text → Bool
is_token none token = false
is_token (some held) token = text_eq held token

module _ (server : Redis) where
  open server use {State, get, set_nx, del, pexpire}

  -- `releaseScript` and `renewScript`; a script runs as one step of the server.
  unfoldable pub release_script : Text → Text → State → ℕ × State
  release_script key token s = if is_token (get s key) token then del key s else (0, s)

  unfoldable pub renew_script : Text → Text → ℤ → State → ℕ × State
  renew_script key token milliseconds s =
      if is_token (get s key) token then pexpire key milliseconds s else (0, s)

  -- The answer of `Acquire`: a lease, or that somebody else has it.
  unfoldable pub acquired : Text → Text → Bool × State → Option Lease × State
  acquired key token (true, s) = (some record { key = key; token = token }, s)
  acquired key token (false, s) = (none, s)

  -- `Acquire` on a configured store, with the token that was drawn or the error of the random source.
  unfoldable pub acquire : Text → Duration → Text ⊎ Text → State → Result (Option Lease) × State
  acquire key ttl (inl e) s =
      if is_empty key || leb_ℤ ttl (pos 0)
      then (err (invalid lease_arguments), s)
      else (err (external e), s)
  acquire key ttl (inr token) s =
      let out = acquired key token (set_nx key token ttl s) in
      if is_empty key || leb_ℤ ttl (pos 0)
      then (err (invalid lease_arguments), s)
      else (ok out.0, out.1)

  -- `ttl.Milliseconds()`, which drops a fraction.
  abbrev pub milliseconds : Duration → ℤ
  milliseconds ttl = pos (pos_part ttl / millisecond)

  unfoldable pub renewed : ℕ × State → Result (Unit {0}) × State
  renewed (n, s) = (fail_if (not (n == 1)) (invalid lease_lost), s)

  -- `Renew`.
  unfoldable pub renew : Lease → Duration → State → Result (Unit {0}) × State
  renew lease ttl s =
      if leb_ℤ ttl (pos 0)
      then (err (invalid lease_arguments), s)
      else renewed (renew_script lease.key lease.token (milliseconds ttl) s)

  -- `Release`, on a server that answers.
  unfoldable pub release : Lease → State → State
  release lease s = (release_script lease.key lease.token s).1
