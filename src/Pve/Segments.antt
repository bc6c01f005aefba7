-- ===== src/Pve/Segments.antt =====
-- A path that is built from checked segments has just these segments.
use pbox.Base.{
  ℕ, ◌≡◌, ◌≢◌, ◌<◌, ◌==◌, ◌||◌, ◌&&◌, not, ltb, all, is_digit, if◌then◌else◌, All, All-append,
  subst, sym, refl, ap, ◌∙◌, inl, inr, true, false, [], ◌∷◌, ◌++◌, Text, codes, text_eq,
  text_eq_refl, is_empty, any, split, split-append, split_whole, digits-Without, Without, show,
  show-All, ok, Bool-cases, arith,
}
use pbox.Pve.{is_reserved, bad_segment, validate_path_segment, lxc_status_path}

-- A segment that names one level of a path: not empty, no step up, no separator of paths or URLs.
abbrev pub IsSegment : Text → Type 0
IsSegment t =
    (t ≢ [])
    × (t ≢ codes ".")
    × (t ≢ codes "..")
    × Without b'/' t
    × Without 92 t
    × Without b'?' t
    × Without b'#' t
    × Without b'%' t

no_reserved : (c : ℕ) (t : Text) → is_reserved c ≡ true → any is_reserved t ≡ false → Without c t
no_reserved c [] r h = tt
no_reserved c (x ∷ t) r h = (
  (λ e. let e' : is_reserved x ≡ true = ap is_reserved e ∙ r in ground arith),
  no_reserved c t r (ground arith),
)

slash :
    (is_reserved b'/' ≡ true)
    × (is_reserved 92 ≡ true)
    × (is_reserved b'?' ≡ true)
    × (is_reserved b'#' ≡ true)
    × (is_reserved b'%' ≡ true)
unfolding is_reserved
slash = (refl, refl, refl, refl, refl)

differs : (s t : Text) → text_eq s t ≡ false → s ≢ t
differs s t h e =
    let same : text_eq s t ≡ true = ap (λ x. text_eq x t) e ∙ text_eq_refl t in ground arith

segment : (value : Text) → bad_segment value ≡ false → IsSegment value
unfolding bad_segment
segment value h =
    let r : any is_reserved value ≡ false = ground arith in
    let empty : is_empty value ≡ false = ground arith in
    (
      (λ e. let e' : is_empty value ≡ true = ap is_empty e in ground arith),
      differs value (codes ".") (ground arith),
      differs value (codes "..") (ground arith),
      no_reserved b'/' value (slash.0) r,
      no_reserved 92 value (slash.1) r,
      no_reserved b'?' value (slash.2) r,
      no_reserved b'#' value (slash.3) r,
      no_reserved b'%' value (slash.4) r,
    )

split_path :
    (node number action : Text)
    → Without b'/' node
    → Without b'/' number
    → Without b'/' action
    → split b'/'
        (codes "/nodes/" ++ (node ++ (codes "/lxc/" ++ (number ++ (codes "/status/" ++ action)))))
      ≡ [] ∷ codes "nodes" ∷ node ∷ codes "lxc" ∷ number ∷ codes "status" ∷ action ∷ []
split_path node number action n k a =
    let tail = codes "status" ++ b'/' ∷ action in
    let numbered = codes "lxc" ++ b'/' ∷ (number ++ b'/' ∷ tail) in
    split-append b'/' [] (codes "nodes" ++ b'/' ∷ (node ++ b'/' ∷ numbered)) tt
    ∙ ap (◌∷◌ []) (
        split-append b'/' (codes "nodes") (node ++ b'/' ∷ numbered) (omega arith)
        ∙ ap (◌∷◌ (codes "nodes")) (
            split-append b'/' node numbered n
            ∙ ap (◌∷◌ node) (
                split-append b'/' (codes "lxc") (number ++ b'/' ∷ tail) (omega arith)
                ∙ ap (◌∷◌ (codes "lxc")) (
                    split-append b'/' number tail k
                    ∙ ap (◌∷◌ number) (
                        split-append b'/' (codes "status") action (omega arith)
                        ∙ ap (◌∷◌ (codes "status")) (split_whole b'/' action a))))))

-- What a URL parser does with a path: tabs and line ends are dropped, and a backslash separates as a slash
-- does.
abbrev pub without_breaks : Text → Text
without_breaks [] = []
without_breaks (c ∷ t) =
    let rest = without_breaks t in if c == 9 || (c == 10 || c == 13) then rest else c ∷ rest

abbrev pub with_slashes : Text → Text
with_slashes [] = []
with_slashes (c ∷ t) = (if c == 92 then b'/' else c) ∷ with_slashes t

abbrev pub Printing : Text → Type 0
Printing = All (λ c. 32 < c)

-- A character of a path that a URL parser leaves as it is.
abbrev IsKept : ℕ → Type 0
IsKept c = (32 < c) × (c ≢ 92) × (c ≢ b'?') × (c ≢ b'#')

kept_breaks : (t : Text) → All IsKept t → without_breaks t ≡ t
kept_breaks [] a = refl
kept_breaks (c ∷ t) (k, a) =
    let plain : (c == 9 || (c == 10 || c == 13)) ≡ false = ground arith in
    rw plain (ap (λ r. c ∷ r) (kept_breaks t a))

kept_slashes : (t : Text) → All IsKept t → with_slashes t ≡ t
kept_slashes [] a = refl
kept_slashes (c ∷ t) (k, a) =
    let plain : (c == 92) ≡ false = ground arith in rw plain (ap (λ r. c ∷ r) (kept_slashes t a))

kept_question : (t : Text) → All IsKept t → Without b'?' t × Without b'#' t
kept_question [] a = (tt, tt)
kept_question (c ∷ t) (k, a) = let (q, h) = kept_question t a in ((k.2, q), (k.3, h))

segment-IsKept :
    (t : Text) → Printing t → Without 92 t → Without b'?' t → Without b'#' t → All IsKept t
segment-IsKept [] p b q h = tt
segment-IsKept (c ∷ t) (p, ps) (b, bs) (q, qs) (h, hs) =
    ((p, b, q, h), segment-IsKept t ps bs qs hs)

digits-IsKept : (t : Text) → All (λ d. is_digit d ≡ true) t → All IsKept t
digits-IsKept [] a = tt
digits-IsKept (d ∷ t) (h, a) =
    ((ground arith, ground arith, ground arith, ground arith), digits-IsKept t a)

text-IsKept :
    (t : Text)
    → all (λ c. ltb 32 c && not (c == 92 || (c == b'?' || c == b'#'))) t ≡ true
    → All IsKept t
text-IsKept [] h = tt
text-IsKept (c ∷ t) h =
    ((ground arith, ground arith, ground arith, ground arith), text-IsKept t (ground arith))

path-IsKept :
    (node number action : Text)
    → All IsKept node
    → All IsKept number
    → All IsKept action
    → All IsKept
        (codes "/nodes/" ++ (node ++ (codes "/lxc/" ++ (number ++ (codes "/status/" ++ action)))))
path-IsKept node number action n k a =
    All-append IsKept (codes "/nodes/") _ (text-IsKept (codes "/nodes/") refl) (
      All-append IsKept node _ n (
        All-append IsKept (codes "/lxc/") _ (text-IsKept (codes "/lxc/") refl) (
          All-append IsKept number _ k
            (All-append IsKept (codes "/status/") action (text-IsKept (codes "/status/") refl) a))))

-- Where the path for an action on a container is built from a node and an action of printing characters, a
-- URL parser reads no query and no fragment in it, and, once tabs and line ends are dropped and
-- backslashes read as slashes, finds the node, the VMID and the action as its segments at their places
-- and no others; the node and the action are not empty and no step within the tree, and hold no
-- separator and no percent sign.
pub lxc_status_path-IsSegment :
    (node : Text) (vmid : ℕ) (action path : Text)
    → Printing node
    → Printing action
    → lxc_status_path node vmid action ≡ ok path
    → IsSegment node
      × IsSegment action
      × Without b'?' path
      × Without b'#' path
      × (split b'/' (with_slashes (without_breaks path))
          ≡ [] ∷ codes "nodes" ∷ node ∷ codes "lxc" ∷ show vmid ∷ codes "status" ∷ action ∷ [])
unfolding lxc_status_path validate_path_segment
lxc_status_path-IsSegment node vmid action path pn pa h = elim (Bool-cases (bad_segment node)) [
  | inl bad ↦ absurd (ground arith)
  | inr n ↦ elim (Bool-cases (bad_segment action)) [
    | inl bad ↦ absurd (ground arith)
    | inr a ↦
        let sn = segment node n in
        let sa = segment action a in
        let e : path
            ≡ codes "/nodes/"
              ++ (node ++ (codes "/lxc/" ++ (show vmid ++ (codes "/status/" ++ action)))) =
          ground arith in
        let kept : All IsKept path = subst (All IsKept) (sym e) (
          path-IsKept node (show vmid) action (segment-IsKept node pn (sn.4) (sn.5) (sn.6))
            (digits-IsKept (show vmid) (show-All vmid))
            (segment-IsKept action pa (sa.4) (sa.5) (sa.6))) in
        let (question, hash) = kept_question path kept in
        (
          sn,
          sa,
          question,
          hash,
          ap (λ t. split b'/' (with_slashes t)) (kept_breaks path kept)
              ∙ ap (split b'/') (kept_slashes path kept)
              ∙ ap (split b'/') e
              ∙ split_path node (show vmid) action (sn.3)
                  (digits-Without b'/' (show vmid) refl (show-All vmid)) (sa.3),
        )
  ]
]
