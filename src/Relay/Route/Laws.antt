-- ===== src/Relay/Route/Laws.antt =====
-- Which routes there are, and which URLs are made.
use pbox.Base.{
  ℕ, ◌≡◌, ◌≢◌, ◌↔◌, ◌<◌, ◌%◌, refl, ap, sym, ◌∙◌, subst, ◌⊎◌, inl, inr, Bool, true, ◌||◌, [], ◌∷◌,
  ◌++◌, Text, codes, starts_with_sound, starts_with-append, split_once, split_once-append,
  split_once_sound, split_once_absent, Without, is_digit, is_lowercase, length, drop, all, All,
  All-append, ok, Option-cases, arith,
}
use pbox.Id
use pbox.Id.{PboxId, in_alphabet}
use pbox.Id.Laws.{Passes, parse_iff}
use pbox.Relay.Route.{valid_box_id, valid_route}

abbrev pub IsIdByte : ℕ → Type 0
IsIdByte b = (is_lowercase b || is_digit b) ≡ true

-- `pbx_` and eight lowercase letters or digits.
abbrev pub IsBoxId : Text → Type 0
IsBoxId v = (s : Text) × (v ≡ codes "pbx_" ++ s) × (length s ≡ 8) × All IsIdByte s

module _ (p : ℕ → Bool) where
  all-All : (t : Text) → all p t ≡ true → All (λ b. p b ≡ true) t
  all-All [] h = tt
  all-All (b ∷ t) h = ground (arith, all-All t)

  All-all : (t : Text) → All (λ b. p b ≡ true) t → all p t ≡ true
  All-all [] h = refl
  All-all (b ∷ t) (h, a) = ground (arith, All-all t a)

IsBoxId-sound : (v : Text) → valid_box_id v ≡ true → IsBoxId v
unfolding valid_box_id
IsBoxId-sound v h =
    let (s, e) = starts_with_sound (codes "pbx_") v (ground arith) in
    let e' : drop 4 v ≡ s = ap (drop 4) e in
    let long : length v ≡ 12 = ground arith in
    let bytes : all (λ b. is_lowercase b || is_digit b) (drop 4 v) ≡ true = ground arith in
    (
      s,
      e,
      omega (arith, ap length e),
      all-All _ s (ap (all (λ b. is_lowercase b || is_digit b)) (sym e') ∙ bytes),
    )

box_id_complete : (v : Text) → IsBoxId v → valid_box_id v ≡ true
unfolding valid_box_id
box_id_complete v (s, e, long, bytes) = rw e (
    ground (
      arith,
      starts_with-append (codes "pbx_") s,
      All-all (λ b. is_lowercase b || is_digit b) s bytes,
    ))

-- No byte of a box id is the separator of a route.
id_byte-ne : (b : ℕ) → IsIdByte b → b ≢ b'~'
id_byte-ne b h e = ground arith

id_bytes-Without : (s : Text) → All IsIdByte s → Without b'~' s
id_bytes-Without [] a = tt
id_bytes-Without (b ∷ s) (h, a) = (id_byte-ne b h, id_bytes-Without s a)

IsBoxId-Without : (v : Text) → IsBoxId v → Without b'~' v
IsBoxId-Without v (s, e, long, bytes) =
    rw e (All-append (λ b. b ≢ b'~') (codes "pbx_") s (omega arith) (id_bytes-Without s bytes))

-- The two kinds of route: a box, or the bootstrap of a box from a snapshot.
abbrev pub IsRoute : Text → Type 0
IsRoute v =
    IsBoxId v
    ⊎ ((parent : Text) × (child : Text) × (v ≡ parent ++ b'~' ∷ child)
        × IsBoxId parent
        × IsBoxId child)

IsRoute-sound : (v : Text) → valid_route v ≡ true → IsRoute v
unfolding valid_route
IsRoute-sound v h = elim (Option-cases (split_once b'~' v)) [
  | inl e ↦ inl (IsBoxId-sound v (rw (e, valid_route) at h))
  | inr ((parent, child), e) ↦
      let both : (valid_box_id parent ≡ true) × (valid_box_id child ≡ true) = ground arith in
      inr (
        parent,
        child,
        (split_once_sound b'~' v parent child e).0,
        IsBoxId-sound parent both.0,
        IsBoxId-sound child both.1,
      )
]

route_pair :
    (parent child : Text)
    → IsBoxId parent
    → IsBoxId child
    → valid_route (parent ++ b'~' ∷ child) ≡ true
unfolding valid_route
route_pair parent child p c =
    rw (split_once-append b'~' parent child (IsBoxId-Without parent p), valid_route)
      (ground (arith, box_id_complete parent p, box_id_complete child c))

route_complete : (v : Text) → IsRoute v → valid_route v ≡ true
unfolding valid_route
route_complete v (inl b) =
    rw (split_once_absent b'~' v (IsBoxId-Without v b), valid_route) (box_id_complete v b)
route_complete v (inr (parent, child, e, p, c)) = ap valid_route e ∙ route_pair parent child p c

-- A route is accepted exactly if it is a box id, or a snapshot's id and a box id joined by `~`: one
-- byte other than those of the ids and that separator, or a second separator, and it is refused.
pub valid_route_iff : (v : Text) → (valid_route v ≡ true) ↔ IsRoute v
valid_route_iff v = (IsRoute-sound v, route_complete v)

alphabet-IsIdByte : (c : ℕ) → in_alphabet c ≡ true → IsIdByte c
unfolding in_alphabet
alphabet-IsIdByte c h = ground arith

ascii-Passes : (s : Text) → All Passes s → All (λ c. c < 128) s → All IsIdByte s
ascii-Passes [] p a = tt
ascii-Passes (c ∷ s) (h, p) (b, a) =
    let e : c % 256 ≡ c = omega arith in
    (alphabet-IsIdByte c (ap in_alphabet (sym e) ∙ h), ascii-Passes s p a)

-- An id that `PboxId::parse` accepts is a box id of the relay, if it is ASCII.
pub parse-valid_box_id :
    (t : Text) (i : PboxId) → Id.parse t ≡ ok i → All (λ c. c < 128) t → valid_box_id t ≡ true
parse-valid_box_id t i h a =
    let ((s, e, long, p), _) = (parse_iff t i).0 h in
    let tail = (subst (All (λ c. c < 128)) e a).1.1.1.1 in
    box_id_complete t (s, e, long, ascii-Passes s p tail)
