-- ===== src/Relay/Access/Expiry.antt =====
-- How long an expiring token is good, and for which box.
use pbox.Base.{
  ℕ, ◌+◌, ◌<◌, ◌≤◌, ◌≡◌, ◌↔◌, refl, ap, sym, ◌∙◌, inl, inr, true, false, some, List, [], ◌∷◌, ◌++◌,
  Text, codes, text_eq, text_eq_refl, text_eq_sound, split, split-append, split_whole, Without,
  digits-Without, show-All, ◌⊎◌, show, Option-cases, ok, ℤ, pos, leℤ, saturating_add, i64_max,
  parse_i64, show_i64, parse_i64-show, arith,
}
use pbox.Relay.Token
use pbox.Relay.Token.{Crypto, IsHex, Collides, message, scoped_token}
use pbox.Relay.Token.Scope.{authorised-scoped_token, key_for_plain, authorised_scope, cut_unique}
use pbox.Relay.Access.{
  Certificates, Credentials, client_role, expiring_id, relay_token_of, in_window, check_signature,
  check_parts, authorised, issue_credentials,
}

module _ (c : Crypto) (master id : Text) (now : ℤ) where
  -- What a token must be to be accepted: three parts, the version, an expiry within the next 300
  -- seconds, and a signature of the id and the expiry.
  abbrev pub IsLive : Text → Type 0
  IsLive token =
      (expiry_text : Text) × (signature : Text) × (expiry : ℤ) × (split b'.' token
        ≡ codes "v2" ∷ expiry_text ∷ signature ∷ [])
      × (parse_i64 expiry_text ≡ some expiry)
      × (leℤ expiry now ≡ false)
      × (leℤ expiry (saturating_add now 300) ≡ true)
      × (Token.authorised c master client_role (expiring_id id expiry) signature ≡ true)

  check-IsLive :
      (token : Text) (parts : List Text)
      → split b'.' token ≡ parts
      → check_parts c master id now parts ≡ true
      → IsLive token
  unfolding check_parts check_signature in_window
  check-IsLive token (version ∷ expiry ∷ signature ∷ []) e h =
      elim (Option-cases (parse_i64 expiry)) [
        | inl none_read ↦ absurd (ground arith)
        | inr (at, read) ↦
            let v : text_eq version (codes "v2") ≡ true = ground arith in
            (
              expiry,
              signature,
              at,
              e ∙ ap (λ x. x ∷ expiry ∷ signature ∷ []) (text_eq_sound version (codes "v2") v),
              read,
              ground arith,
              ground arith,
              ground arith,
            )
      ]
  check-IsLive token _ e h = cc

  -- An expiring token that is accepted is one that expires in the future, at most 300 seconds from
  -- now, and that was signed for this box and this expiry.
  pub authorised-IsLive : (token : Text) → authorised c master id token now ≡ true → IsLive token
  unfolding authorised
  authorised-IsLive token h = check-IsLive token _ refl h

-- The parts of a token are determined, and so are its expiry and its signature.
same_parts :
    {a b a' b' : Text}
    → ◌≡◌ {A = List Text} (codes "v2" ∷ a ∷ b ∷ []) (codes "v2" ∷ a' ∷ b' ∷ [])
    → (a ≡ a') × (b ≡ b')
same_parts e = (ground arith, ground arith)

module _ (c : Crypto) (master : Text) where
  -- An expiring token that is accepted for two ids without a slash, at whatever times, is accepted for one
  -- box only, or else two messages that are not the same, of these ids and some times of expiry, have one
  -- code under the master key.
  pub authorised_one_box :
      (id id' token : Text) (now now' : ℤ)
      → Without b'/' id
      → Without b'/' id'
      → authorised c master id token now ≡ true
      → authorised c master id' token now' ≡ true
      → (id ≡ id')
        ⊎ ((expiry : ℤ) × (expiry' : ℤ) × Collides c master
              (message client_role (expiring_id id expiry))
              master
              (message client_role (expiring_id id' expiry')))
  authorised_one_box id id' token now now' w w' h h' =
      let (text, signature, expiry, cut, read, _, _, signed) =
        authorised-IsLive c master id now token h in
      let (text', signature', expiry', cut', read', _, _, signed') =
        authorised-IsLive c master id' now' token h' in
      let (_, same) = same_parts (sym cut ∙ cut') in
      let signed'' =
        ap (Token.authorised c master client_role (expiring_id id expiry)) (sym same) ∙ signed in
      let plain = λ (i : Text). key_for_plain c master client_role i (λ e. cc) in
      elim (authorised_scope c master client_role client_role (expiring_id id expiry)
        (expiring_id id' expiry') signature' (omega arith) (omega arith) (plain _) (plain _)
        signed'' signed') [
          | inr x ↦ inr (expiry, expiry', x)
          | inl (_, e) ↦
              inl ((cut_unique b'/' id id' (show_i64 expiry) (show_i64 expiry') w w' e).0)
        ]

  abbrev pub signature_of : Text → ℕ → Text
  signature_of id at = scoped_token c master client_role (expiring_id id (pos at))

  issued_parts :
      (id : Text) (at : ℕ)
      → Without b'.' (signature_of id at)
      → split b'.' (relay_token_of c master id at)
        ≡ codes "v2" ∷ show_i64 (pos at) ∷ signature_of id at ∷ []
  unfolding show_i64
  issued_parts id at w =
      split-append b'.' (codes "v2") (show at ++ b'.' ∷ signature_of id at) (omega arith)
      ∙ ap (◌∷◌ (codes "v2")) (
          split-append b'.' (show at) (signature_of id at)
            (digits-Without b'.' (show at) refl (show-All at))
          ∙ ap (◌∷◌ (show at)) (split_whole b'.' (signature_of id at) w))

  check_issued :
      (id : Text) (at : ℕ) (now : ℤ) (signature : Text)
      → 0 < at
      → at ≤ i64_max
      → Token.authorised c master client_role (expiring_id id (pos at)) signature ≡ true
      → check_parts c master id now (codes "v2" ∷ show_i64 (pos at) ∷ signature ∷ [])
        ≡ in_window (pos at) now
  unfolding check_parts check_signature
  check_issued id at now signature p b signed =
      ground (arith, text_eq_refl (codes "v2"), parse_i64-show at p b)

  window_iff :
      (at n : ℕ)
      → n + 300 ≤ i64_max
      → (in_window (pos (at + 300)) (pos n) ≡ true) ↔ ((at ≤ n) × (n < at + 300))
  unfolding in_window
  window_iff at n b = ground arith

  authorised_lem :
      (id token : Text) (now : ℤ) (parts : List Text)
      → split b'.' token ≡ parts
      → authorised c master id token now ≡ check_parts c master id now parts
  unfolding authorised
  authorised_lem id token now parts e = ap (check_parts c master id now) e

  issued_token :
      (p : Certificates) (authority id : Text) (at : ℕ) (cr : Credentials)
      → issue_credentials c p master authority id at ≡ ok cr
      → cr.relay_token ≡ relay_token_of c master id (at + 300)
  unfolding issue_credentials
  issued_token p authority id at cr h = ground arith

  -- The token of credentials that were issued at a time is accepted for their box from that time on
  -- for 300 seconds, and at no other time that fits an i64 with 300 seconds more, given that the time of
  -- issue does too, that hexadecimal text is read back and that the signature holds no dot.
  pub issued_window :
      (p : Certificates) (authority id : Text) (at n : ℕ) (cr : Credentials)
      → IsHex c
      → Without b'.' (signature_of id (at + 300))
      → at + 300 ≤ i64_max
      → n + 300 ≤ i64_max
      → issue_credentials c p master authority id at ≡ ok cr
      → (authorised c master id cr.relay_token (pos n) ≡ true) ↔ ((at ≤ n) × (n < at + 300))
  issued_window p authority id at n cr hex w b b' issued =
      let token = issued_token p authority id at cr issued in
      let signed =
        authorised-scoped_token c master client_role (expiring_id id (pos (at + 300))) hex
          (inl (λ e. cc)) in
      let runs =
        ap (λ t. authorised c master id t (pos n)) token
        ∙ authorised_lem id (relay_token_of c master id (at + 300)) (pos n) _
            (issued_parts id (at + 300) w)
        ∙ check_issued id (at + 300) (pos n) (signature_of id (at + 300)) (omega arith) b signed in
      let (to, from) = window_iff at n b' in ((λ h. to (sym runs ∙ h)), (λ h. runs ∙ from h))
