-- ===== src/Lease/Exclusion.antt =====
-- A lease belongs to one owner.
use kokoro_scheduler.Base.{
  Option-cases, ℕ, ◌≡◌, refl, sym, subst, ◌∙◌, ◌↔◌, inl, inr, Bool, true, false, ◌&&◌, ◌||◌, none,
  some, arith, if◌then◌else◌, Text, ok, ℤ, pos, Bool-cases, text_eq, is_empty, text_eq→eq, leb_ℤ,
}
use kokoro_scheduler.Domain.Time.{Duration}
use kokoro_scheduler.Lease.{
  Redis, IsServer, renewed, renew, acquire, Lease, acquired, release, renew_script, release_script,
  milliseconds, is_token,
}

module _ (server : Redis) (laws : IsServer server) where
  open server use {State, get, set_nx, del, pexpire}

  -- A call of the store that the owner of `token` on `key` did not make.
  pub data Foreign (key token : Text) (s : State) : State → Type 0 where
    acquiring :
        (key' token' : Text) (ttl : Duration)
        → Foreign key token s (acquire server key' ttl (inr token') s).1
    renewing :
        (lease : Lease) (ttl : Duration)
        → (text_eq lease.key key && text_eq token lease.token) ≡ false
        → Foreign key token s (renew server lease ttl s).1
    releasing :
        (lease : Lease)
        → (text_eq lease.key key && text_eq token lease.token) ≡ false
        → Foreign key token s (release server lease s)

  set_nx-keeps :
      (key token key' token' : Text) (ttl : Duration) (s : State)
      → get s key ≡ some token
      → get (set_nx key' token' ttl s).1 key ≡ some token
  set_nx-keeps key token key' token' ttl s held = elim (Bool-cases (text_eq key' key)) [
    | inl same ↦
        let e = text_eq→eq key' key same in
        subst (λ (k : Text). get (set_nx k token' ttl s).1 key ≡ some token) (sym e)
          (laws.set_nx-held key token' token ttl s held).1
    | inr apart ↦ laws.set_nx-other key' token' key ttl s apart ∙ held
  ]

  acquired-state :
      (key token : Text) (out : Bool × State) → (acquired server key token out).1 ≡ out.1
  unfolding acquired
  acquired-state key token (true, s) = refl
  acquired-state key token (false, s) = refl

  acquire-keeps :
      (key token key' token' : Text) (ttl : Duration) (s : State)
      → get s key ≡ some token
      → get (acquire server key' ttl (inr token') s).1 key ≡ some token
  unfolding acquire
  acquire-keeps key token key' token' ttl s held =
      elim (Bool-cases (is_empty key' || leb_ℤ ttl (pos 0))) [
        | inl refused ↦ rw refused held
        | inr fine ↦
            rw (fine, acquired-state key' token' (set_nx key' token' ttl s))
              (set_nx-keeps key token key' token' ttl s held)
      ]

  -- A script of a lease on another key, or with another token, keeps the value.
  module _ (key token : Text) (s : State) (held : get s key ≡ some token) (lease : Lease) where
    renew_script-keeps :
        (n : ℤ)
        → (text_eq lease.key key && text_eq token lease.token) ≡ false
        → get (renew_script server lease.key lease.token n s).1 key ≡ some token
    unfolding renew_script
    renew_script-keeps n foreign = elim (Bool-cases (text_eq lease.key key)) [
      | inl same ↦
          let e = text_eq→eq lease.key key same in
          let other : text_eq token lease.token ≡ false = ground (arith, foreign, same) in
          rw (e, held, other) held
      | inr apart ↦ elim (Bool-cases (is_token (get s lease.key) lease.token)) [
        | inl own ↦ rw own (laws.pexpire-other lease.key key n s apart ∙ held)
        | inr lost ↦ rw lost held
      ]
    ]

    release_script-keeps :
        (text_eq lease.key key && text_eq token lease.token) ≡ false
        → get (release_script server lease.key lease.token s).1 key ≡ some token
    unfolding release_script
    release_script-keeps foreign = elim (Bool-cases (text_eq lease.key key)) [
      | inl same ↦
          let e = text_eq→eq lease.key key same in
          let other : text_eq token lease.token ≡ false = ground (arith, foreign, same) in
          rw (e, held, other) held
      | inr apart ↦ elim (Bool-cases (is_token (get s lease.key) lease.token)) [
        | inl own ↦ rw own (laws.del-other lease.key key s apart ∙ held)
        | inr lost ↦ rw lost held
      ]
    ]

  renewed-state : (out : ℕ × State) → (renewed server out).1 ≡ out.1
  unfolding renewed
  renewed-state (n, s) = refl

  -- Until it expires, a key keeps the token of its owner, whatever other calls of the store are made:
  -- nobody else acquires it, and a lease with another token neither renews nor releases it.
  pub Foreign-keeps :
      (key token : Text) {s s' : State}
      → get s key ≡ some token
      → Foreign key token s s'
      → get s' key ≡ some token
  unfolding renew release
  Foreign-keeps key token {s} held (acquiring key' token' ttl) =
      acquire-keeps key token key' token' ttl s held
  Foreign-keeps key token {s} held (renewing lease ttl foreign) =
      elim (Bool-cases (leb_ℤ ttl (pos 0))) [
        | inl refused ↦ rw refused held
        | inr fine ↦
            rw
              (
                fine,
                renewed-state
                    (renew_script server lease.key lease.token (milliseconds server ttl) s),
              )
              (renew_script-keeps key token s held lease (milliseconds server ttl) foreign)
      ]
  Foreign-keeps key token {s} held (releasing lease foreign) =
      release_script-keeps key token s held lease foreign

  acquired-lease :
      (key token : Text) (out : Bool × State)
      → (acquired server key token out).0
        ≡ (if out.0 then some record { key = key; token = token } else none)
  unfolding acquired
  acquired-lease key token (true, s) = refl
  acquired-lease key token (false, s) = refl

  acquire-answer :
      (key token : Text) (ttl : Duration) (s : State)
      → (is_empty key || leb_ℤ ttl (pos 0)) ≡ false
      → (acquire server key ttl (inr token) s).0
        ≡ ok (if (set_nx key token ttl s).0 then some record { key = key; token = token } else none)
  unfolding acquire
  acquire-answer key token ttl s fine = rw (fine, acquired-lease key token (set_nx key token ttl s))

  -- With a key and a positive time to live, a lease is granted exactly if the key is free, and then
  -- the key holds the token that was drawn.
  pub acquire_iff :
      (key token : Text) (ttl : Duration) (s : State)
      → (is_empty key || leb_ℤ ttl (pos 0)) ≡ false
      → ((acquire server key ttl (inr token) s).0 ≡ ok (some record { key = key; token = token }))
        ↔ ((get s key ≡ none) × (get (acquire server key ttl (inr token) s).1 key ≡ some token))
  unfolding acquire
  acquire_iff key token ttl s fine =
      let answer = acquire-answer key token ttl s fine in
      (
        λ h. elim (Option-cases (get s key)) [
          | inl free ↦ (
            free,
            rw (fine, acquired-state key token (set_nx key token ttl s))
                (laws.set_nx-free key token ttl s free).1,
          )
          | inr (held, e) ↦
              let refused = (laws.set_nx-held key token held ttl s e).0 in cc (answer, refused, h)
        ],
        λ free. rw (answer, (laws.set_nx-free key token ttl s free.0).0),
      )
