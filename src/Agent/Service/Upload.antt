-- ===== src/Agent/Service/Upload.antt =====
-- What is received in an upload of a file: `receive_upload` of crates/pbox-agent/src/main.rs.
pub mod Placed
pub mod Cases
use pbox.Base.{
  ℕ, ◌+◌, ◌-◌, ◌≡◌, ◌≤◌, refl, ap, ap₂, sym, ◌∙◌, subst, inl, inr, Bool, true, false, not, ◌&&◌,
  ◌==◌, ltb, if◌then◌else◌, none, some, List, [], ◌∷◌, ◌++◌, append_assoc, append-nil, Text,
  text_eq, text_eq_sound, text_eq_refl, length, length-append, Result, ok, err, ok-injective,
  >>=-eq-ok, fail_if-eq-ok, Bool-cases, Option-cases, arith, ◌⊎◌,
}
use pbox.Agent.Sessions.{protocol}
use pbox.Agent.Service.{
  ServiceError, ownership, bad_version, too_large, io_failed, temporary_exists, FileChunk,
  StreamEvent, chunk, idle, broken, Received, max_file_size, write_chunk, has_owner, receive,
  check_end, upload_content, FileSystem, put, mode_or, old_mode, FileResult, finished,
  receive_upload,
}

-- The data of the chunks of a stream, in order.
abbrev pub data_of : List StreamEvent → Text
data_of [] = []
data_of (idle ∷ events) = data_of events
data_of (broken ∷ events) = data_of events
data_of (chunk c ∷ events) = c.data_bytes ++ data_of events

-- The size that is counted is the length of the content, and within the bound.
pub record IsCounted (received : Received) : Type 0 where
  pub counted : received.size ≡ length received.content
  pub bounded : received.size ≤ max_file_size

fits :
    (size more : ℕ)
    → ltb (max_file_size - size) more ≡ false
    → size ≤ max_file_size
    → size + more ≤ max_file_size
fits size more e h = ground arith

pair_same :
    {a b : Received} {x y : List StreamEvent}
    → ◌≡◌ {A = Received × List StreamEvent} (a, x) (b, y)
    → (a ≡ b) × (x ≡ y)
pair_same e = (ap (λ p. p.0) e, ap (λ p. p.1) e)

write_chunk-eq-ok :
    (fails : ℕ → Bool) (c : FileChunk) (before after : Received)
    → write_chunk fails c before ≡ ok after
    → IsCounted before
    → IsCounted after × (after.content ≡ before.content ++ c.data_bytes)
unfolding write_chunk
write_chunk-eq-ok fails c before after h i =
    let (e, k) =
      fail_if-eq-ok (ltb (max_file_size - before.size) (length c.data_bytes)) too_large _ h in
    let (_, k') = fail_if-eq-ok (fails before.size) io_failed _ k in
    let size = length-append before.content c.data_bytes in
    let same = ok-injective k' in
    (
      subst IsCounted same (record {
        counted = omega (arith, size, i.counted);
        bounded = fits before.size (length c.data_bytes) e i.bounded;
      }),
      ap (λ r. r.content) (sym same),
    )

receive-eq-ok :
    (fails : ℕ → Bool) (complete : Bool) (before after : Received) (events left : List StreamEvent)
    → receive fails complete before events ≡ ok (after, left)
    → IsCounted before
    → IsCounted after × (after.content ++ data_of left ≡ before.content ++ data_of events)
unfolding receive
receive-eq-ok fails true before after events left h i =
    let same = pair_same (ok-injective h) in
    (subst IsCounted (same.0) i, ap₂ (λ r l. r.content ++ data_of l) (sym (same.0)) (sym (same.1)))
receive-eq-ok fails false before after [] left h i = absurd (ground arith)
receive-eq-ok fails false before after (idle ∷ events) left h i = absurd (ground arith)
receive-eq-ok fails false before after (broken ∷ events) left h i = absurd (ground arith)
receive-eq-ok fails false before after (chunk c ∷ events) left h i =
    let (_, h1) =
      fail_if-eq-ok (not (c.protocol_version == 0) && not (c.protocol_version == protocol))
        bad_version _ h in
    let (_, h2) = fail_if-eq-ok (has_owner c) ownership _ h1 in
    let (next, e, h3) = >>=-eq-ok (write_chunk fails c before) _ h2 in
    let (j, f) = write_chunk-eq-ok fails c before next e i in
    let (k, g) = receive-eq-ok fails c.eof next after events left h3 j in
    (
      k,
      g
          ∙ ap (λ t. t ++ data_of events) f
          ∙ append_assoc before.content c.data_bytes (data_of events),
    )

check_end-eq-ok : (left : List StreamEvent) → check_end left ≡ ok tt → left ≡ []
check_end-eq-ok [] h = refl
check_end-eq-ok (idle ∷ left) h = absurd (ground arith)
check_end-eq-ok (broken ∷ left) h = absurd (ground arith)
check_end-eq-ok (chunk c ∷ left) h = absurd (ground arith)

pub upload_content-eq-ok :
    (fails : ℕ → Bool) (first : FileChunk) (events : List StreamEvent) (received : Received)
    → upload_content fails first events ≡ ok received
    → IsCounted received × (received.content ≡ first.data_bytes ++ data_of events)
unfolding upload_content
upload_content-eq-ok fails first events received h =
    let (_, h1) = fail_if-eq-ok (has_owner first) ownership _ h in
    let (start, e, h2) =
      >>=-eq-ok (write_chunk fails first (record { content = []; size = 0 })) _ h1 in
    let ((all, left), f, h3) = >>=-eq-ok (receive fails first.eof start events) _ h2 in
    let (passed, g, h4) = >>=-eq-ok (check_end left) _ h3 in
    let (i, p) =
      write_chunk-eq-ok fails first (record { content = []; size = 0 }) start e
        (record { counted = refl; bounded = omega arith }) in
    let (j, q) = receive-eq-ok fails first.eof start all events left f i in
    let nothing = check_end-eq-ok left g in
    let same = ok-injective h4 in
    (
      subst IsCounted same j,
      subst (λ r. r.content ≡ first.data_bytes ++ data_of events) same
          (sym (append-nil all.content)
            ∙ ap (λ l. all.content ++ data_of l) (sym nothing)
            ∙ q
            ∙ ap (λ t. t ++ data_of events) p),
    )
