-- ===== src/Server/ListLaws.antt =====
-- The client list: removal by swapping the last entry in, the limit, and the mutex.
use mathlib.Core.List.{Mem, Perm, mem-cons, not-mem-nil}
use mathlib.Core.List.Perm
use mathlib.Core.Logic.Or
use mathlib.Core.HLevel.{⊥_prop}
use c_chat_server.Base.{
  ltb→lt, ◌>>=◌, ℕ, ◌≤◌, ◌<◌, ◌≡◌, refl, arith, List, [], ◌∷◌, ◌++◌, Option, some, none, true,
  false, length, length-append, ◌⊎◌, inl, inr, ltb, Bool-cases, ◌==◌,
}
use c_chat_server.Os.{Os, Status, success, failure}
use c_chat_server.Os.Laws.{Status-cases}
use c_chat_server.Client.{ClientInfo}
use c_chat_server.Server.{
  lock-free, get_client-some, Server, max_clients, update, swap_remove, replace_by_last, last_of,
  drop_last, cleanup_client, add_client_to_list, remove_client_from_list,
}

last-perm : (x : ℕ) (xs : List ℕ) → Perm (x ∷ xs) (last_of x xs ∷ drop_last x xs)
unfolding last_of drop_last
last-perm x [] = Perm.refl (x ∷ [])
last-perm x (y ∷ ys) =
    Perm.trans (Perm.cons x (last-perm y ys)) (Perm.swap (last_of y ys) x (drop_last y ys))

replace-perm : (xs : List ℕ) → Perm xs (replace_by_last xs)
unfolding replace_by_last
replace-perm [] = Perm.refl []
replace-perm (y ∷ ys) = last-perm y ys

-- An entry of the list is removed, and all others are kept; else the list has no such entry.
pub data Removes (p : ℕ) (l : List ℕ) (r : Option (List ℕ)) : Type 0 where
  removed : (rest : List ℕ) → r ≡ some rest → Perm l (p ∷ rest) → Removes p l r
  absent : r ≡ none → ¬ Mem p l → Removes p l r

pub swap_remove-Removes : (p : ℕ) (l : List ℕ) → Removes p l (swap_remove p l)
unfolding swap_remove
swap_remove-Removes p [] = absent refl not-mem-nil
swap_remove-Removes p (q ∷ qs) = elim (Bool-cases (q == p)) [
  | inl hit ↦
      let e : q ≡ p = ground arith in
      removed (replace_by_last qs) (rw (hit, swap_remove)) (rw e (Perm.cons p (replace-perm qs)))
  | inr miss ↦ elim (swap_remove-Removes p qs) [
    | removed rest found keeps ↦
        removed (q ∷ rest) (rw (miss, swap_remove, found))
          (Perm.trans (Perm.cons q keeps) (Perm.swap p q rest))
    | absent gone none_there ↦
        absent (rw (miss, swap_remove, gone))
          (λ m. Or.elim ⊥_prop (mem-cons.0 m) (λ e. ne miss e) none_there)
  ]
]
  where
    ne : (q == p) ≡ false → p ≡ q → ⊥
    ne h e = ground arith

module _ (os : Os) (s : Server os.World) (p : ℕ) (c : ClientInfo) where
  -- What is left of the server when the client at `p` is closed with the answer `r`: its block is
  -- freed only if `close` succeeded.
  abbrev pub cleaned : Status → os.World → Server os.World
  cleaned success w = record s { world = w; clients = update s.clients p none }
  cleaned failure w = record s { world = w }

  pub cleanup-cleaned :
      s.clients p ≡ some c
      → cleanup_client os p s
        ≡ some (
          (os.close c.client_fd s.world).0,
          cleaned (os.close c.client_fd s.world).0 (os.close c.client_fd s.world).1,
        )
  unfolding cleanup_client
  cleanup-cleaned here =
      rw (get_client-some p s here, ◌>>=◌)
        (elim (Status-cases (os.close c.client_fd s.world).0) [
          | inl done ↦ rw done
          | inr not_done ↦ rw not_done
        ])

-- Once the mutex is free and the client's block is allocated, `remove_client_from_list` comes to
-- one of these: an entry with its address leaves the list, all others stay, the mutex is free again
-- and the client is cleaned up; or no entry has its address, the call returns -1, and the mutex
-- stays locked.
pub data RemovesClient (os : Os) (s : Server os.World) (p : ℕ) (c : ClientInfo)
    : Option (Status × Server os.World) → Type 0 where
  removes :
      {r : Option (Status × Server os.World)} (rest : List ℕ)
      → Perm s.client_list (p ∷ rest)
      → r
        ≡ some (
          (os.close c.client_fd s.world).0,
          cleaned os
              (record s { client_list = rest; locked = false })
              p
              c
              (os.close c.client_fd s.world).0
              (os.close c.client_fd s.world).1,
        )
      → RemovesClient os s p c r
  leaves_locked :
      {r : Option (Status × Server os.World)}
      → ¬ Mem p s.client_list
      → r ≡ some (failure, record s { locked = true })
      → RemovesClient os s p c r

-- With the mutex free and the client's block allocated, `remove_client_from_list` comes to one of
-- `RemovesClient`: it removes exactly one entry with that address and keeps all others, whatever
-- their order, unlocks the mutex, and frees the client when `close` succeeds; or there is no such
-- entry, it returns -1, and the mutex stays locked.
pub remove_client_from_list-RemovesClient :
    (os : Os) (s : Server os.World) (p : ℕ) (c : ClientInfo)
    → s.locked ≡ false
    → s.clients p ≡ some c
    → RemovesClient os s p c (remove_client_from_list os p s)
unfolding remove_client_from_list
remove_client_from_list-RemovesClient os s p c free here =
    elim (swap_remove-Removes p s.client_list) [
      | removed rest found keeps ↦ removes rest keeps (
          rw (lock-free s free, ◌>>=◌, found)
            (cleanup-cleaned os (record s { client_list = rest; locked = false }) p c here))
      | absent gone none_there ↦ leaves_locked none_there (rw (lock-free s free, ◌>>=◌, gone))
    ]

-- With the mutex free and the new client's block allocated, `add_client_to_list` puts the client
-- behind the others and returns 0 exactly when there are fewer than 1000; else it returns -1, keeps
-- the list, and closes and frees the client. The mutex is free again, and a list within the limit
-- stays within it.
pub add_client_to_list-limit :
    (os : Os) (s : Server os.World) (p : ℕ) (c : ClientInfo)
    → s.locked ≡ false
    → s.clients p ≡ some c
    → length s.client_list ≤ max_clients
    → ((length s.client_list < max_clients)
        × (add_client_to_list os p s
            ≡ some (success, record s { client_list = s.client_list ++ p ∷ []; locked = false }))
        × (length (s.client_list ++ p ∷ []) ≤ max_clients))
      ⊎ ((length s.client_list ≡ max_clients)
          × (add_client_to_list os p s
              ≡ some (
                failure,
                record s {
                  world = (os.close c.client_fd s.world).1;
                  locked = false;
                  clients = update s.clients p none;
                },
              )))
unfolding add_client_to_list
add_client_to_list-limit os s p c free here limit =
    elim (Bool-cases (ltb (length s.client_list) max_clients)) [
      | inl room ↦ inl (
        ground arith,
        rw (lock-free s free, ◌>>=◌, room),
        omega (
          arith,
          length-append s.client_list (p ∷ []),
          ltb→lt (length s.client_list) max_clients room,
        ),
      )
      | inr full ↦ inr (
        ground arith,
        rw (lock-free s free, ◌>>=◌, full, get_client-some p (record s { locked = false }) here),
      )
    ]
