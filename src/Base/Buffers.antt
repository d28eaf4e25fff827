-- ===== src/Base/Buffers.antt =====
-- Bytes in memory: a buffer is the list of its bytes, and an access out of its bounds is `none`.
use Prim.Native.Nat.{ℕ, zero, suc, ◌+◌, ◌≤◌}
use mathlib.Core.Path.{refl, ◌≡◌, ap, ◌∙◌, sym}
use mathlib.Core.List.{List, [], ◌∷◌, ◌++◌, append_assoc}
use mathlib.Core.Option.{Option, none, some}
use native.Mathlib.Omega.{arith}
use c_chat_server.Base.Tests.{leb, if◌then◌else◌, le→leb}
use c_chat_server.Base.Lists.{
  length, take, drop, length-append, length-take, length-drop, take-append,
}

abbrev pub Byte : Type 0
Byte = ℕ

abbrev pub Bytes : Type 0
Bytes = List ℕ

-- `memcpy(dst + off, src, length src)` for the `dst` and `src` given.
abbrev pub blit : Bytes → ℕ → Bytes → Bytes
blit dst off src = take off dst ++ (src ++ drop (off + length src) dst)

-- The copy with its bound checked.
abbrev pub memcpy : Bytes → ℕ → Bytes → Option Bytes
memcpy dst off src = if leb (off + length src) (length dst) then some (blit dst off src) else none

-- The first `n` bytes of a buffer, read as the source of a copy or of a call.
abbrev pub slice : Bytes → ℕ → ℕ → Option Bytes
slice src off n = if leb (off + n) (length src) then some (take n (drop off src)) else none

pub length-blit :
    (dst : Bytes) (off : ℕ) (src : Bytes)
    → off + length src ≤ length dst
    → length (blit dst off src) ≡ length dst
length-blit dst off src h = omega (
  arith,
  length-append (take off dst) (src ++ drop (off + length src) dst),
  length-append src (drop (off + length src) dst),
  length-take off dst,
  length-drop (off + length src) dst,
)

-- What stands before the end of the copied bytes: the old prefix, then the bytes.
pub take-blit :
    (dst : Bytes) (off : ℕ) (src : Bytes) (n : ℕ)
    → off + length src ≤ length dst
    → n ≡ off + length src
    → take n (blit dst off src) ≡ take off dst ++ src
take-blit dst off src n h e =
    ap (take n) (sym (append_assoc (take off dst) src (drop (off + length src) dst)))
    ∙ take-append (take off dst ++ src) (drop (off + length src) dst) n
        (omega (arith, length-append (take off dst) src, length-take off dst))

-- What stands behind the copied bytes is left alone.
pub drop-blit :
    (dst : Bytes) (off : ℕ) (src : Bytes) (n : ℕ)
    → off + length src ≤ length dst
    → off + length src ≤ n
    → drop n (blit dst off src) ≡ drop n dst
drop-blit dst zero [] n fits h = refl
drop-blit [] zero (y ∷ ys) n fits h = absurd (omega arith)
drop-blit (x ∷ dst) zero (y ∷ ys) zero fits h = absurd (omega arith)
drop-blit (x ∷ dst) zero (y ∷ ys) (suc n) fits h =
    let e : 0 + suc (length ys) ≡ suc (0 + length ys) = omega arith in
    ap (λ k. drop n (ys ++ drop k (x ∷ dst))) e
    ∙ drop-blit dst zero ys n (omega arith) (omega arith)
drop-blit [] (suc off) src n fits h = absurd (omega arith)
drop-blit (x ∷ dst) (suc off) src zero fits h = absurd (omega arith)
drop-blit (x ∷ dst) (suc off) src (suc n) fits h =
    let e : suc off + length src ≡ suc (off + length src) = omega arith in
    ap (λ k. drop n (take off dst ++ (src ++ drop k (x ∷ dst)))) e
    ∙ drop-blit dst off src n (omega arith) (omega arith)

pub memcpy-some :
    (dst : Bytes) (off : ℕ) (src : Bytes)
    → off + length src ≤ length dst
    → memcpy dst off src ≡ some (blit dst off src)
memcpy-some dst off src h = rw (le→leb _ _ h)

pub slice-some :
    (src : Bytes) (off n : ℕ)
    → off + n ≤ length src
    → slice src off n ≡ some (take n (drop off src))
slice-some src off n h = rw (le→leb _ _ h)

-- A copy behind the bytes that a buffer holds, when a stream hands these bytes over.
pub blit-stream :
    (stream dst src rest : Bytes) (off : ℕ)
    → off + length src ≤ length dst
    → stream ≡ take off dst ++ (src ++ rest)
    → stream ≡ take (off + length src) (blit dst off src) ++ rest
blit-stream stream dst src rest off h e =
    rw (take-blit dst off src (off + length src) h refl, append_assoc) e
