-- ===== src/Pve/Selection/Usable.antt =====
-- Which address of a container `select_lxc_ipv4` picks, with what a usable address is and what comes
-- before what described without the code's own tests.
use pbox.Base.{
  ℕ, ◌≡◌, ◌≢◌, ◌≤◌, ◌<◌, refl, ap, ◌∙◌, subst, inl, inr, ◌⊎◌, Bool, true, false, not, ◌||◌, ◌==◌,
  Option, none, some, List, [], ◌∷◌, ◌++◌, Text, codes, text_eq, text_eq_sound, text_eq_refl, split,
  All, Bool-cases, Option-cases, arith,
}
use pbox.Pve.{
  LxcInterface, Ipv4, is_zero, is_eth0, first_part, parse_ipv4, is_unusable, parsed_prefix,
  reachable_address, usable_address, candidate, before, octets_le, key_le, smallest,
  select_lxc_ipv4,
}
use pbox.Pve.Selection.{Least, Offers, smallest-Least}

-- Not 0.0.0.0, not 127.b.c.d and not 169.254.c.d.
abbrev pub IsReachable : Ipv4 → Type 0
IsReachable (a, b, c, d) =
    ((a ≡ 0) × (b ≡ 0) × (c ≡ 0) × (d ≡ 0) → ⊥) × (a ≢ 127) × ((a ≡ 169) × (b ≡ 254) → ⊥)

-- The interface is not known to be down or absent, and has the address before the slash of its `inet`.
pub record IsUsable (i : LxcInterface) (address : Ipv4) : Type 0 where
  pub up : i.active ≢ some 0
  pub present : i.exists_ ≢ some 0
  pub inet : Text
  pub has : i.inet ≡ some inet
  pub prefix : Text
  pub more : List Text
  pub cut : split b'/' inet ≡ prefix ∷ more
  pub reads : parse_ipv4 prefix ≡ some address
  pub reachable : IsReachable address

-- The address is the same or lower, at the first octet that differs.
abbrev pub IsLower : Ipv4 → Ipv4 → Type 0
IsLower (a, b, c, d) (a', b', c', d') =
    (a < a') ⊎ ((a ≡ a') × ((b < b') ⊎ ((b ≡ b') × ((c < c') ⊎ ((c ≡ c') × (d ≤ d'))))))

abbrev pub IsEth0 : LxcInterface → Type 0
IsEth0 i = i.name ≡ some (codes "eth0")

-- An interface with an address is preferred to another: it is eth0 and the other is not, or they are
-- alike in this and its address is not the higher.
abbrev pub Preferred : LxcInterface → Ipv4 → LxcInterface → Ipv4 → Type 0
Preferred i a j x =
    (IsEth0 i × (IsEth0 j → ⊥))
    ⊎ ((IsEth0 i × IsEth0 j × IsLower a x) ⊎ ((IsEth0 i → ⊥) × (IsEth0 j → ⊥) × IsLower a x))

not_zero : (o : Option ℕ) → is_zero o ≡ false → o ≢ some 0
not_zero none h e = absurd (ground arith)
not_zero (some n) h e = absurd (ground arith)

zero_false : (o : Option ℕ) → o ≢ some 0 → is_zero o ≡ false
zero_false none h = refl
zero_false (some n) h = elim (Bool-cases (n == 0)) [
  | inl e ↦ let same : n ≡ 0 = ground arith in absurd (h (ap (λ m. some m) same))
  | inr e ↦ e
]

unusable-IsReachable : (a : Ipv4) → is_unusable a ≡ false → IsReachable a
unfolding is_unusable
unusable-IsReachable (a, b, c, d) h =
    ((λ (e0, e1, e2, e3). ground arith), (λ e. ground arith), (λ (e0, e1). ground arith))

IsReachable-unusable : (a : Ipv4) → IsReachable a → is_unusable a ≡ false
unfolding is_unusable
IsReachable-unusable (a, b, c, d) (h, h', h'') = ground arith

octets_le-IsLower : (x y : Ipv4) → octets_le x y ≡ true → IsLower x y
unfolding octets_le before
octets_le-IsLower (a, b, c, d) (a', b', c', d') h = ground arith

head_prefix :
    (parts : List Text) (t : Text)
    → first_part parts ≡ some t
    → (more : List Text) × (parts ≡ t ∷ more)
head_prefix [] t h = absurd (ground arith)
head_prefix (s ∷ more) t h = let same : s ≡ t = ground arith in (more, ap (λ x. x ∷ more) same)

-- A reading of the address of an interface.
record Reading (inet : Option Text) (address : Ipv4) : Type 0 where
  pub text : Text
  pub has : inet ≡ some text
  pub prefix : Text
  pub more : List Text
  pub cut : split b'/' text ≡ prefix ∷ more
  pub reads : parse_ipv4 prefix ≡ some address

usable_address-Reading :
    (inet : Option Text) (a : Ipv4)
    → usable_address inet ≡ some a
    → Reading inet a × (is_unusable a ≡ false)
unfolding usable_address
usable_address-Reading none a h = absurd (ground arith)
usable_address-Reading (some text) a h = elim (Option-cases (first_part (split b'/' text))) [
  | inl e ↦ absurd (ground arith)
  | inr (t, e) ↦ elim (Option-cases (parse_ipv4 t)) [
    | inl f ↦ absurd (ground arith)
    | inr (x, f) ↦ elim (Bool-cases (is_unusable x)) [
      | inl g ↦ absurd (ground arith)
      | inr g ↦
          let same : x ≡ a = ground arith in
          let (more, cut) = head_prefix (split b'/' text) t e in
          (
            record {
              text = text;
              has = refl;
              prefix = t;
              more = more;
              cut = cut;
              reads = f ∙ ap (λ y. some y) same;
            },
            subst (λ y. is_unusable y ≡ false) same g,
          )
    ]
  ]
]

Reading-usable_address :
    (inet : Option Text) (a : Ipv4)
    → Reading inet a
    → is_unusable a ≡ false
    → usable_address inet ≡ some a
unfolding usable_address
Reading-usable_address inet a r u =
    ap usable_address r.has
    ∙ ap (λ parts. reachable_address (parsed_prefix (first_part parts))) r.cut
    ∙ ap reachable_address r.reads
    ∙ rw u refl

candidate-IsUsable :
    (i : LxcInterface) (other : Bool) (a : Ipv4)
    → candidate i ≡ some (other, a)
    → IsUsable i a × (other ≡ not (is_eth0 i.name))
unfolding candidate
candidate-IsUsable i other a h = elim (Bool-cases (is_zero i.active || is_zero i.exists_)) [
  | inl e ↦ absurd (ground arith)
  | inr e ↦ elim (Option-cases (usable_address i.inet)) [
    | inl f ↦ absurd (ground arith)
    | inr (x, f) ↦
        let same : x ≡ a = ground arith in
        let (r, u) = usable_address-Reading i.inet a (f ∙ ap (λ y. some y) same) in
        (
          record {
            up = not_zero i.active (ground arith);
            present = not_zero i.exists_ (ground arith);
            inet = r.text;
            has = r.has;
            prefix = r.prefix;
            more = r.more;
            cut = r.cut;
            reads = r.reads;
            reachable = unusable-IsReachable a u;
          },
          ground arith,
        )
  ]
]

IsUsable-candidate :
    (i : LxcInterface) (a : Ipv4) → IsUsable i a → candidate i ≡ some (not (is_eth0 i.name), a)
unfolding candidate
IsUsable-candidate i a u =
    let found =
      Reading-usable_address i.inet a
        (record {
          text = u.inet;
          has = u.has;
          prefix = u.prefix;
          more = u.more;
          cut = u.cut;
          reads = u.reads;
        })
        (IsReachable-unusable a u.reachable) in
    rw (zero_false i.active u.up, zero_false i.exists_ u.present, found) refl

is_eth0_iff :
    (i : LxcInterface)
    → ((is_eth0 i.name ≡ true) × IsEth0 i) ⊎ ((is_eth0 i.name ≡ false) × (IsEth0 i → ⊥))
is_eth0_iff i = elim (Option-cases i.name) [
  | inl e ↦ inr (rw e refl, λ f. absurd (ground arith))
  | inr (n, e) ↦ elim (Bool-cases (text_eq n (codes "eth0"))) [
    | inl f ↦ inl (rw e f, e ∙ ap (λ t. some t) (text_eq_sound n (codes "eth0") f))
    | inr f ↦ inr (
      rw e f,
      λ g.
          let same : n ≡ codes "eth0" = ground arith in
          let equal : text_eq n (codes "eth0") ≡ true =
            ap (λ t. text_eq t (codes "eth0")) same ∙ text_eq_refl (codes "eth0") in
          absurd (ground arith),
    )
  ]
]

key_le-Preferred :
    (i j : LxcInterface) (a x : Ipv4)
    → key_le (not (is_eth0 i.name), a) (not (is_eth0 j.name), x) ≡ true
    → Preferred i a j x
unfolding key_le
key_le-Preferred i j a x h = elim (is_eth0_iff i) [
  | inl (e, p) ↦ elim (is_eth0_iff j) [
    | inl (f, q) ↦ inr (inl (p, q, octets_le-IsLower a x (rw (e, f) at h)))
    | inr (f, q) ↦ inl (p, q)
  ]
  | inr (e, p) ↦ elim (is_eth0_iff j) [
    | inl (f, q) ↦ absurd (ground arith)
    | inr (f, q) ↦ inr (inr (p, q, octets_le-IsLower a x (rw (e, f) at h)))
  ]
]

-- An interface that offers an address is one of the list.
offered :
    (other : Bool) (a : Ipv4) (is : List LxcInterface)
    → Offers (other, a) is
    → (i : LxcInterface) × (front : List LxcInterface) × (back : List LxcInterface) × (is
        ≡ front ++ i ∷ back)
      × (candidate i ≡ some (other, a))
offered other a [] o = absurd o
offered other a (i ∷ is) (inl e) = (i, [], is, refl, e)
offered other a (j ∷ is) (inr o) =
    let (i, front, back, e, c) = offered other a is o in (i, j ∷ front, back, ap (λ r. j ∷ r) e, c)

-- No usable interface of a list comes before one.
abbrev pub IsBest : LxcInterface → Ipv4 → List LxcInterface → Type 0
IsBest i a = All (λ j. (x : Ipv4) → IsUsable j x → Preferred i a j x)

Least-IsBest :
    (i : LxcInterface) (other : Bool) (a : Ipv4) (is : List LxcInterface)
    → other ≡ not (is_eth0 i.name)
    → Least (other, a) is
    → IsBest i a is
Least-IsBest i other a [] e l = tt
Least-IsBest i other a (j ∷ is) e (f, l) = (
  (λ x u. key_le-Preferred i j a x (
      subst (λ o. key_le (o, a) (not (is_eth0 j.name), x) ≡ true) e
        (f (not (is_eth0 j.name), x) (IsUsable-candidate j x u)))),
  Least-IsBest i other a is e l,
)

-- The address that is picked is that of an interface of the list which is not known to be down or absent,
-- read from its `inet` up to the first slash, and neither 0.0.0.0, nor in 127.0.0.0/8, nor in
-- 169.254.0.0/16; and this interface is preferred to each of the list that has such an address: eth0 to
-- the others, and among those that are alike in this, one with the lower address, octet by octet.
pub select_lxc_ipv4-IsBest :
    (is : List LxcInterface) (a : Ipv4)
    → select_lxc_ipv4 is ≡ some a
    → (i : LxcInterface) × (front : List LxcInterface) × (back : List LxcInterface) × (is
        ≡ front ++ i ∷ back)
      × IsUsable i a
      × IsBest i a is
unfolding select_lxc_ipv4
select_lxc_ipv4-IsBest is a h = elim (Option-cases (smallest is)) [
  | inl e ↦ absurd (ground arith)
  | inr ((other, x), e) ↦
      let same : x ≡ a = ground arith in
      let (o, l) = smallest-Least is (other, x) e in
      let (i, front, back, f, c) = offered other a is (subst (λ z. Offers (other, z) is) same o) in
      let (u, first) = candidate-IsUsable i other a c in
      (
        i,
        front,
        back,
        f,
        u,
        Least-IsBest i other a is first (subst (λ z. Least (other, z) is) same l),
      )
]
