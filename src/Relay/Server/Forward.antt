-- ===== src/Relay/Server/Forward.antt =====
-- crates/pbox-relay/src/server.rs: `forward`, one direction of a session. What the source yields is a
-- list, each item with whether the target takes it in time.
use pbox.Base.{
  ◌≡◌, refl, ap, inl, inr, Bool, true, false, not, ◌&&◌, ◌||◌, Option, none, some, List, [], ◌∷◌,
  ◌++◌, Text, All, if◌then◌else◌, Bool-cases, arith,
}

pub data Message : Type 0 where
  text binary ping pong close : Text → Message

pub data ForwardError : Type 0 where
  receive text_frame send : ForwardError

-- A message, or the failure to receive one.
pub data Item : Type 0 where
  received : Message → Bool → Item
  failed : Item

unfoldable pub is_text : Message → Bool
is_text (text t) = true
is_text _ = false

unfoldable pub is_close : Message → Bool
is_close (close t) = true
is_close _ = false

abbrev pub Forwarded : Type 0
Forwarded = List Message × Option ForwardError

abbrev pub after_message : Message → Forwarded → Forwarded
after_message m (ms, e) = (m ∷ ms, e)

-- The messages that the target took, and the error that ended the session, where one did.
unfoldable pub forward : List Item → Forwarded
forward [] = ([], none)
forward (failed ∷ items) = ([], some receive)
forward (received m taken ∷ items) =
    let rest = forward items in
    if is_text m
    then ([], some text_frame)
    else if taken
    then if is_close m then (m ∷ [], none) else after_message m rest
    else ([], some send)

-- The messages of the stream's items, in order.
abbrev pub messages : List Item → List Message
messages [] = []
messages (failed ∷ items) = messages items
messages (received m taken ∷ items) = m ∷ messages items

-- Whether nothing in the stream ends the session: messages that are taken, no text and no close.
abbrev pub is_data : Item → Bool
is_data failed = false
is_data (received m taken) = taken && not (is_text m) && not (is_close m)

abbrev pub Prefix : List Message → List Message → Type 0
Prefix ms ns = (rest : List Message) × (ns ≡ ms ++ rest)

-- What the target takes is a prefix of what the source sent, unchanged and in order, and it holds no
-- text frame.
pub forward-Prefix :
    (items : List Item)
    → Prefix ((forward items).0) (messages items) × All (λ m. is_text m ≡ false) ((forward items).0)
unfolding forward
forward-Prefix [] = (([], refl), tt)
forward-Prefix (failed ∷ items) = ((messages items, refl), tt)
forward-Prefix (received m taken ∷ items) =
    let ((rest, e), a) = forward-Prefix items in
    elim (Bool-cases (is_text m)) [
      | inl t ↦ rw t ((m ∷ messages items, refl), tt)
      | inr t ↦ elim (Bool-cases taken) [
        | inr n ↦ rw (t, n) ((m ∷ messages items, refl), tt)
        | inl y ↦ elim (Bool-cases (is_close m)) [
          | inl k ↦ rw (t, y, k) ((messages items, refl), (t, tt))
          | inr k ↦ rw (t, y, k) ((rest, ap (◌∷◌ m) e), (t, a))
        ]
      ]
    ]

-- A stream of data that the target takes is forwarded whole, up to a close and with it, and the
-- session ends there without an error.
pub forward_close :
    (items : List Item) (t : Text) (later : List Item)
    → All (λ i. is_data i ≡ true) items
    → forward (items ++ received (close t) true ∷ later) ≡ (messages items ++ close t ∷ [], none)
unfolding forward is_text is_close
forward_close [] t later a = refl
forward_close (failed ∷ items) t later (h, a) = absurd (ground arith)
forward_close (received m taken ∷ items) t later (h, a) =
    let rest = forward_close items t later a in
    let t : is_text m ≡ false = ground arith in
    let k : is_close m ≡ false = ground arith in
    let y : taken ≡ true = ground arith in rw (t, y, k, rest) refl

-- Whether an item ends the session with an error: a failure, a text frame, or a target that is stuck.
abbrev pub is_fault : Item → Bool
is_fault failed = true
is_fault (received m taken) = not taken || is_text m

fault :
    (last : Item) (later : List Item)
    → is_fault last ≡ true
    → (e : ForwardError) × (forward (last ∷ later) ≡ ([], some e))
unfolding forward
fault failed later h = (receive, refl)
fault (received m taken) later h = elim (Bool-cases (is_text m)) [
  | inl t ↦ (text_frame, rw t refl)
  | inr t ↦ let n : taken ≡ false = ground arith in (send, rw (t, n) refl)
]

-- At the first item that is a failure, a text frame or a message that the target does not take, the
-- session ends with an error: the data before it is forwarded, and nothing of it or behind it.
pub forward_error :
    (items : List Item) (last : Item) (later : List Item)
    → All (λ i. is_data i ≡ true) items
    → is_fault last ≡ true
    → (e : ForwardError) × (forward (items ++ last ∷ later) ≡ (messages items, some e))
unfolding forward
forward_error [] last later a h = fault last later h
forward_error (failed ∷ items) last later (d, a) h = absurd (ground arith)
forward_error (received m taken ∷ items) last later (d, a) h =
    let (e, rest) = forward_error items last later a h in
    let t : is_text m ≡ false = ground arith in
    let k : is_close m ≡ false = ground arith in
    let y : taken ≡ true = ground arith in (e, rw (t, y, k, rest) refl)
