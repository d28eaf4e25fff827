-- ===== src/Text/Copies.antt =====
-- The copy that `copy_buffer` makes.
use c_chat_server.Base.{
  ℕ, ◌+◌, ◌≤◌, ◌≡◌, refl, arith, ap, sym, ◌∙◌, Bytes, [], ◌∷◌, ◌++◌, some, length, length-take,
  take, take-all, blit, length-blit, take-blit, memcpy-some, slice-some, inl, inr, ◌>>=◌,
}
use c_chat_server.Os.{Os}
use c_chat_server.Os.Laws.{IsAllocator, IsPlentiful, allocated}
use c_chat_server.Text.{copy_buffer}

-- With memory, the copy of bytes inside their block is exactly those bytes and a NUL.
pub copy_buffer-take :
    (os : Os) (laws : IsAllocator os) (rich : IsPlentiful os) (src : Bytes) (n : ℕ) (w : os.World)
    → n ≤ length src
    → (w' : os.World) × (copy_buffer os (some src) n w ≡ some (some (take n src ++ 0 ∷ []), w'))
unfolding copy_buffer
copy_buffer-take os laws rich src n w within = elim (allocated (os.malloc (n + 1) w)) [
  | inl (w1, e) ↦ absurd (rich.malloc_gives (n + 1) w w1 e)
  | inr (b, w1, e) ↦
      let size = laws.malloc_size _ _ _ _ e in
      let body = take n src in
      let body_size : length body ≡ n = omega (arith, length-take n src) in
      let room : 0 + length body ≤ length b = omega arith in
      let copied = blit b 0 body in
      let copied_size = length-blit b 0 body room in
      let room' : n + 1 ≤ length copied = omega (arith, copied_size) in
      let content : blit copied n (0 ∷ []) ≡ body ++ 0 ∷ [] =
        sym (
          take-all (n + 1) (blit copied n (0 ∷ []))
            (omega (arith, length-blit copied n (0 ∷ []) room', copied_size)))
        ∙ take-blit copied n (0 ∷ []) (n + 1) room' refl
        ∙ ap (λ x. x ++ 0 ∷ []) (take-blit b 0 body n room (omega arith)) in
      (
        w1,
        rw
            (
              e,
              ◌>>=◌,
              slice-some src 0 n (omega arith),
              memcpy-some b 0 body room,
              memcpy-some copied n (0 ∷ []) room',
            )
            (ap (λ x. some (some x, w1)) content),
      )
]
