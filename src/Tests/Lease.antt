-- ===== src/Tests/Lease.antt =====
-- The theorems on leases at a server that keeps its values in a function of the key.
use kokoro_scheduler.Base.{
  text_eq_refl, ℕ, zero, suc, ◌≤◌, ◌≡◌, refl, ◌↔◌, inr, Bool, true, false, Option, none, some,
  arith, if◌then◌else◌, codes, text_eq, Text, ok, ℤ, pos, negsuc,
}
use kokoro_scheduler.Domain.Time.{second}
use kokoro_scheduler.Lease.Exclusion.{Foreign-keeps, releasing, acquire_iff}
use kokoro_scheduler.Lease.{Redis, IsServer, release, acquire}

abbrev Values : Type 0
Values = Text → Option Text

abbrev put : Text → Option Text → Values → Values
put key value s = λ other. if text_eq key other then value else s other

abbrev is_set : Option Text → Bool
is_set none = false
is_set (some t) = true

abbrev set_when_free : Text → Text → Option Text → Values → Bool × Values
set_when_free key value none s = (true, put key (some value) s)
set_when_free key value (some held) s = (false, s)

abbrev expire : Text → ℤ → Values → ℕ × Values
expire key (pos zero) s = (if is_set (s key) then 1 else 0, put key none s)
expire key (pos (suc n)) s = (if is_set (s key) then 1 else 0, s)
expire key (negsuc n) s = (if is_set (s key) then 1 else 0, put key none s)

abbrev values_server : Redis
values_server = record {
  State = Values;
  get = λ s key. s key;
  set_nx = λ key value ttl s. set_when_free key value (s key) s;
  del = λ key s. (if is_set (s key) then 1 else 0, put key none s);
  pexpire = λ key n s. expire key n s;
}

put-key : (key : Text) (o : Option Text) (s : Values) → put key o s key ≡ o
put-key key o s = rw (text_eq_refl key)

put-other :
    (key other : Text) (o : Option Text) (s : Values)
    → text_eq key other ≡ false
    → put key o s other ≡ s other
put-other key other o s h = rw h

set_when_free-other :
    (key value other : Text) (o : Option Text) (s : Values)
    → text_eq key other ≡ false
    → (set_when_free key value o s).1 other ≡ s other
set_when_free-other key value other none s h = put-other key other (some value) s h
set_when_free-other key value other (some held) s h = refl

expire-held :
    (key held : Text) (n : ℕ) (s : Values)
    → s key ≡ some held
    → 1 ≤ n
    → ((expire key (pos n) s).0 ≡ 1) × ((expire key (pos n) s).1 key ≡ some held)
expire-held key held zero s h low = absurd (omega arith)
expire-held key held (suc n) s h low = (rw h, h)

expire-other :
    (key other : Text) (n : ℤ) (s : Values)
    → text_eq key other ≡ false
    → (expire key n s).1 other ≡ s other
expire-other key other (pos zero) s h = put-other key other none s h
expire-other key other (pos (suc n)) s h = refl
expire-other key other (negsuc n) s h = put-other key other none s h

values_server-IsServer : IsServer values_server
values_server-IsServer = record {
  set_nx-free = λ key value ttl s h. rw h (refl, put-key key (some value) s);
  set_nx-held = λ key value held ttl s h. rw h (refl, h);
  set_nx-other = λ key value other ttl s h. set_when_free-other key value other (s key) s h;
  del-key = λ key s. put-key key none s;
  del-other = λ key other s h. put-other key other none s h;
  pexpire-held = λ key held n s h low. expire-held key held n s h low;
  pexpire-drop = λ key s. put-key key none s;
  pexpire-other = λ key other n s h. expire-other key other n s h;
}

abbrev lease_key : Text
lease_key = codes "tenant:schedule"

abbrev mine : Text
mine = codes "mine"

abbrev untouched : Values
untouched other = none

abbrev held_by_me : Values
held_by_me = put lease_key (some mine) (λ other. none)

-- Another worker's release, with its own token.
Foreign-keeps_example :
    release values_server record { key = lease_key; token = codes "yours" } held_by_me lease_key
    ≡ some mine
unfolding text_eq
Foreign-keeps_example =
    Foreign-keeps values_server values_server-IsServer lease_key mine refl
      (releasing record { key = lease_key; token = codes "yours" } refl)

acquire_iff_example :
    ((acquire values_server lease_key (pos second) (inr mine) untouched).0
      ≡ ok (some record { key = lease_key; token = mine }))
    ↔ ((untouched lease_key ≡ none)
        × ((acquire values_server lease_key (pos second) (inr mine) untouched).1 lease_key
            ≡ some mine))
acquire_iff_example =
    acquire_iff values_server values_server-IsServer lease_key mine (pos second) (λ other. none)
      refl
