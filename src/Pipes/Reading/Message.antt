-- ===== src/Pipes/Reading/Message.antt =====
-- Which messages `process_msg` reads whole, and which overrun its array.
use pe_exchange.Common.{
  Bool, not, ◌&&◌, ℕ, suc, ◌+◌, ◌≤◌, ◌<◌, ◌≡◌, ◌≢◌, refl, ap, ◌∙◌, inl, inr, true, false, List, [],
  ◌∷◌, ◌++◌, arith, leb, ◌==◌, Bool-cases, All, length, length-append, length-snoc, length-set, set,
  append-nil, snoc-append,
}
use pe_exchange.Common.Text.{Bytes}
use pe_exchange.Pipes.Reading.{
  ReadResult, byte, returned, overrun, Reading, reading, process_from, process_msg, text_in,
}

-- The bytes of a text, as they come.
abbrev pub bytes : Bytes → List ReadResult → List ReadResult
bytes [] rs = rs
bytes (c ∷ s) rs = byte c ∷ bytes s rs

-- Neither the end of a message nor of a text.
abbrev pub IsInner : ℕ → Type 0
IsInner c = (c ≢ b';') × (c ≢ 0)

-- The same as a test.
abbrev pub are_inner : Bytes → Bool
are_inner [] = true
are_inner (c ∷ s) = (not (c == b';') && not (c == 0)) && are_inner s

pub All-IsInner : (s : Bytes) → are_inner s ≡ true → All IsInner s
All-IsInner [] h = tt
All-IsInner (c ∷ s) h = ((λ e. ground arith, λ e. ground arith), All-IsInner s (ground arith))

set-append :
    (pre post : Bytes) (c d : ℕ) → set (pre ++ (c ∷ post)) (length pre) d ≡ pre ++ (d ∷ post)
set-append [] post c d = refl
set-append (x ∷ pre) post c d = ap (◌∷◌ x) (set-append pre post c d)

process_from-inner :
    (pre post : Bytes) (c d : ℕ) (rs : List ReadResult)
    → c ≢ b';'
    → process_from (pre ++ (d ∷ post)) (length pre) (byte c ∷ rs)
      ≡ process_from ((pre ++ (c ∷ [])) ++ post) (length (pre ++ (c ∷ []))) rs
unfolding process_from
process_from-inner pre post c d rs h =
    let inside : leb (length (pre ++ (d ∷ post))) (length pre) ≡ false =
      ground (arith, length-append pre (d ∷ post)) in
    let other : (c == b';') ≡ false = ground arith in
    simp (inside, other)
      (rw (set-append pre post d c, snoc-append pre post c, length-snoc pre c) refl)

process_from-body :
    (body pre post : Bytes) (rs : List ReadResult)
    → All IsInner body
    → length body ≤ length post
    → (post' : Bytes) × (length post ≡ length body + length post')
      × (process_from (pre ++ post) (length pre) (bytes body rs)
          ≡ process_from ((pre ++ body) ++ post') (length (pre ++ body)) rs)
process_from-body [] pre post rs h l = (post, omega arith, rw (append-nil pre) refl)
process_from-body (c ∷ body) pre [] rs h l = absurd (omega arith)
process_from-body (c ∷ body) pre (d ∷ post) rs h l =
    let (post', e, q) = process_from-body body (pre ++ (c ∷ [])) post rs h.1 (omega arith) in
    (
      post',
      omega arith,
      process_from-inner pre post c d (bytes body rs) h.0.0 ∙ q ∙ rw (snoc-append pre body c) refl,
    )

text_in-append :
    (body post : Bytes)
    → All IsInner body
    → text_in (body ++ (b';' ∷ 0 ∷ post)) ≡ body ++ (b';' ∷ [])
unfolding text_in
text_in-append [] post h = refl
text_in-append (c ∷ body) post h =
    let other : (c == 0) ≡ false = ground (arith, h.0.1) in
    simp (other, text_in-append body post h.1) refl

set-append_next :
    (pre post : Bytes) (c d v : ℕ)
    → set (pre ++ (c ∷ d ∷ post)) (suc (length pre)) v ≡ pre ++ (c ∷ v ∷ post)
set-append_next [] post c d v = refl
set-append_next (x ∷ pre) post c d v = ap (◌∷◌ x) (set-append_next pre post c d v)

process_from-end :
    (pre post : Bytes) (d d' : ℕ) (rs : List ReadResult)
    → process_from (pre ++ (d ∷ d' ∷ post)) (length pre) (byte b';' ∷ rs)
      ≡ reading (returned (suc (length pre))) (pre ++ (b';' ∷ 0 ∷ post)) rs
unfolding process_from
process_from-end pre post d d' rs =
    let inside : leb (length (pre ++ (d ∷ d' ∷ post))) (length pre) ≡ false =
      ground (arith, length-append pre (d ∷ d' ∷ post)) in
    let inside' : leb (length (pre ++ (b';' ∷ d' ∷ post))) (suc (length pre)) ≡ false =
      ground (arith, length-append pre (b';' ∷ d' ∷ post)) in
    simp (inside, set-append pre (d' ∷ post) d b';', inside', set-append_next pre post b';' d' 0)
      refl

-- A message is read whole.
pub record IsRead (body : Bytes) (msg : Bytes) (rs : List ReadResult) (r : Reading) : Type 0 where
  pub outcome : r.outcome ≡ returned (length body + 1)
  pub text : text_in r.msg ≡ body ++ (b';' ∷ [])
  pub left : r.left ≡ rs
  pub same_array : length r.msg ≡ length msg

-- From a pipe with a text without `;` and zero, then `;`, `process_msg` reads just these bytes, if
-- the array has room for them and a zero: it returns their number, the array, which keeps its
-- length, has the text with its `;`, and the bytes behind it are left in the pipe.
pub process_msg-IsRead :
    (body msg : Bytes) (rs : List ReadResult)
    → All IsInner body
    → length body + 2 ≤ length msg
    → IsRead body msg rs (process_msg msg (bytes body (byte b';' ∷ rs)))
unfolding process_msg
process_msg-IsRead body msg rs h l =
    at_end (process_from-body body [] msg (byte b';' ∷ rs) h (omega arith))
  where
    at_end :
        (post : Bytes) × (length msg ≡ length body + length post)
          × (process_from msg 0 (bytes body (byte b';' ∷ rs))
              ≡ process_from (body ++ post) (length body) (byte b';' ∷ rs))
        → IsRead body msg rs (process_from msg 0 (bytes body (byte b';' ∷ rs)))
    at_end ([], e, q) = absurd (omega arith)
    at_end (d ∷ [], e, q) = absurd (omega arith)
    at_end (d ∷ d' ∷ post, e, q) =
        rw (q, process_from-end body post d d' rs)
          (record {
            outcome = ap returned (omega arith);
            text = text_in-append body post h;
            left = refl;
            same_array = omega (arith, length-append body (b';' ∷ 0 ∷ post));
          })

process_from-overrun :
    (body msg : Bytes) (count : ℕ) (rs : List ReadResult)
    → All (λ c. c ≢ b';') body
    → length msg < count + length body + 2
    → (process_from msg count (bytes body (byte b';' ∷ rs))).outcome ≡ overrun
unfolding process_from
process_from-overrun [] msg count rs h l = elim (Bool-cases (leb (length msg) count)) [
  | inl out ↦ simp out refl
  | inr inside ↦
      let close : leb (length (set msg count b';')) (suc count) ≡ true =
        ground (arith, length-set msg count b';') in
      simp (inside, close) refl
]
process_from-overrun (c ∷ body) msg count rs h l = elim (Bool-cases (leb (length msg) count)) [
  | inl out ↦ simp out refl
  | inr inside ↦
      let other : (c == b';') ≡ false = ground (arith, h.0) in
      simp (inside, other)
        (process_from-overrun body (set msg count c) (suc count) rs h.1
          (omega (arith, length-set msg count c)))
]

-- If the bytes in front of the first `;`, with it and a zero, are more than the array holds,
-- `process_msg` writes outside of its array.
pub process_msg-overrun :
    (body msg : Bytes) (rs : List ReadResult)
    → All (λ c. c ≢ b';') body
    → length msg < length body + 2
    → (process_msg msg (bytes body (byte b';' ∷ rs))).outcome ≡ overrun
unfolding process_msg
process_msg-overrun body msg rs h l = process_from-overrun body msg 0 rs h (omega arith)
