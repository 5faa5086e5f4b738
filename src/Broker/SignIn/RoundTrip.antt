-- ===== src/Broker/SignIn/RoundTrip.antt =====
-- internal/broker/users.go, `accessTokenCodec`: an issued token is verified until it expires.
use mathlib.Core.List.{append_assoc}
use mathlib.Core.Path.{subst}
use openrung.Base.{
  ℕ, zero, suc, ◌+◌, ◌-◌, ◌*◌, ◌/◌, ◌%◌, ◌^◌, ◌<◌, ◌≡◌, refl, sym, ap, ◌∙◌, true, not, ◌||◌, [],
  ◌∷◌, ◌++◌, Option, none, some, arith, ltb, ◌==◌, if◌then◌else◌, length, length-append, take, drop,
  take-append, drop-append, if_elim,
}
use openrung.Base.Bytes.{Bytes}
use openrung.Broker.SignIn.AccessToken.{
  Codes, IsLawful, AccessTokenCodec, second, same, big_endian, of_big_endian, payload, is_unexpired,
  issue_token, verify_raw, verify_token,
}

length-big_endian : (k n : ℕ) → length (big_endian k n) ≡ k
unfolding big_endian
length-big_endian zero n = refl
length-big_endian (suc k) n =
    omega (
      arith,
      length-append (big_endian k (n / 256)) ((n % 256) ∷ []),
      length-big_endian k (n / 256),
    )

of_big_endian-append :
    (n : ℕ) (s : Bytes) (b : ℕ) → of_big_endian n (s ++ b ∷ []) ≡ of_big_endian n s * 256 + b
unfolding of_big_endian
of_big_endian-append n [] b = refl
of_big_endian-append n (c ∷ cs) b = of_big_endian-append (n * 256 + c) cs b

-- A number that so many bytes hold.
abbrev HasBytes : ℕ → ℕ → Type 0
HasBytes zero n = n ≡ 0
HasBytes (suc k) n = HasBytes k (n / 256)

of_big_endian-big_endian : (k n : ℕ) → HasBytes k n → of_big_endian 0 (big_endian k n) ≡ n
unfolding big_endian of_big_endian
of_big_endian-big_endian zero n h = sym h
of_big_endian-big_endian (suc k) n h = omega (
  arith,
  of_big_endian-append 0 (big_endian k (n / 256)) (n % 256),
  of_big_endian-big_endian k (n / 256) h,
)

eight_bytes : (n : ℕ) → n < 2 ^ 63 → HasBytes 8 n
eight_bytes n h = omega (arith, h)

same_refl : (s : Bytes) → same s s ≡ true
same_refl s = ground arith

-- What a token says: its user until it expires.
abbrev said : Bytes → ℕ → ℕ → Option Bytes
said user_id seconds now = if is_unexpired seconds now then some user_id else none

module _ (k : Codes) (w : IsLawful k) where
  length-payload :
      (user_id : Bytes) (seconds : ℕ) (nonce : Bytes)
      → length nonce ≡ 12
      → length (payload user_id seconds nonce) ≡ length user_id + 22
  unfolding payload
  length-payload user_id seconds nonce h = omega (
    arith,
    length-append user_id (big_endian 8 seconds ++ nonce),
    length-append (big_endian 8 seconds) nonce,
    length-big_endian 8 seconds,
    h,
  )

  take_body : (p mac : Bytes) (n : ℕ) → n ≡ length p → take n (p ++ mac) ≡ p
  take_body p mac n h = ap (λ m. take m (p ++ mac)) h ∙ take-append p mac

  drop_body : (p mac : Bytes) (n : ℕ) → n ≡ length p → drop n (p ++ mac) ≡ mac
  drop_body p mac n h = ap (λ m. drop m (p ++ mac)) h ∙ drop-append p mac

  -- The rest of a token after its user.
  after_user :
      (user_id : Bytes) (seconds : ℕ) (nonce mac : Bytes)
      → take 8 (drop (length user_id) ((user_id ++ (big_endian 8 seconds ++ nonce)) ++ mac))
        ≡ big_endian 8 seconds
  after_user user_id seconds nonce mac =
      ap (λ s. take 8 (drop (length user_id) s))
        (append_assoc user_id (big_endian 8 seconds ++ nonce) mac)
      ∙ ap (take 8) (drop-append user_id ((big_endian 8 seconds ++ nonce) ++ mac))
      ∙ ap (take 8) (append_assoc (big_endian 8 seconds) nonce mac)
      ∙ take_body (big_endian 8 seconds) (nonce ++ mac) 8 (sym (length-big_endian 8 seconds))

  the_user : (user_id rest mac : Bytes) → take (length user_id) ((user_id ++ rest) ++ mac) ≡ user_id
  the_user user_id rest mac =
      ap (take (length user_id)) (append_assoc user_id rest mac) ∙ take-append user_id (rest ++ mac)

  verify_raw-payload :
      (c : AccessTokenCodec) (user_id : Bytes) (seconds : ℕ) (nonce : Bytes) (now : ℕ)
      → length nonce ≡ 12
      → seconds < 2 ^ 63
      → verify_raw k c
          (payload user_id seconds nonce ++ k.hmac c.key (payload user_id seconds nonce))
          now
        ≡ said user_id seconds now
  unfolding verify_raw payload
  verify_raw-payload c user_id seconds nonce now h small =
      let p = payload user_id seconds nonce in
      let mac = k.hmac c.key p in
      let raw = p ++ mac in
      let size : length raw ≡ length user_id + 54 = omega (
        arith,
        length-append p mac,
        length-payload user_id seconds nonce h,
        w.length-hmac c.key p,
      ) in
      let body : length raw - 32 ≡ length p =
        omega (arith, size, length-payload user_id seconds nonce h) in
      let good : same (k.hmac c.key (take (length raw - 32) raw)) (drop (length raw - 32) raw)
          ≡ true =
        rw (take_body p mac (length raw - 32) body, drop_body p mac (length raw - 32) body)
          (same_refl mac) in
      if_elim (λ (r : Option Bytes). r ≡ said user_id seconds now)
        (ltb (length raw) 54 || not (1 == 1) || not (length raw - 32 == length user_id + 22))
        (λ bad. absurd (ground (arith, size)))
        (λ _.
          if_elim (λ (r : Option Bytes). r ≡ said user_id seconds now)
            (same (k.hmac c.key (take (length raw - 32) raw)) (drop (length raw - 32) raw))
            (λ _.
              rw
                (
                  after_user user_id seconds nonce mac,
                  of_big_endian-big_endian 8 seconds (eight_bytes seconds small),
                  the_user user_id (big_endian 8 seconds ++ nonce) mac,
                )
                refl)
            (λ bad. absurd (ground (arith, good))))

  -- What an issued token and its expiry promise at a time.
  abbrev Reads : AccessTokenCodec → Bytes → ℕ → Option (Bytes × ℕ) → Type 0
  Reads c user_id later none = Unit
  Reads c user_id later (some (token, expires_at)) =
      verify_token k c token later ≡ (if ltb later expires_at then some user_id else none)

  verify_issued :
      (c : AccessTokenCodec) (user_id nonce : Bytes) (seconds later : ℕ)
      → length nonce ≡ 12
      → seconds < 2 ^ 63
      → Reads c user_id later (
          some (
            k.encode_url
                (payload user_id seconds nonce ++ k.hmac c.key (payload user_id seconds nonce)),
            seconds * second,
          ))
  unfolding verify_token is_unexpired
  verify_issued c user_id nonce seconds later h small =
      rw
        (
          w.decode-encode
              (payload user_id seconds nonce ++ k.hmac c.key (payload user_id seconds nonce)),
          verify_token,
        )
        (verify_raw-payload c user_id seconds nonce later h small ∙ ground arith)

  -- Where a code has 32 bytes and base64 reads what it wrote: a token that the codec issues, with a
  -- nonce of 12 bytes and an expiry whose seconds an int64 holds, is verified by the same codec at
  -- any time. Before the expiry it gives the user it was issued to, and from the expiry on nothing.
  pub verify_token-issue_token :
      (c : AccessTokenCodec) (user_id nonce token : Bytes) (now later expires_at : ℕ)
      → length nonce ≡ 12
      → (now + c.ttl) / second < 2 ^ 63
      → issue_token k c user_id now (some nonce) ≡ some (token, expires_at)
      → verify_token k c token later ≡ (if ltb later expires_at then some user_id else none)
  unfolding issue_token
  verify_token-issue_token c user_id nonce token now later expires_at h small e =
      subst (Reads c user_id later) e (
        if_elim (Reads c user_id later) (length user_id == 0 || ltb 255 (length user_id)) (λ _. tt)
          (λ _. verify_issued c user_id nonce ((now + c.ttl) / second) later h small))
