-- ===== src/Server/RemoveAll.antt =====
-- `remove_all_clients`: every client is freed, up to a `close` that fails.
use mathlib.Core.Path.{subst}
use c_chat_server.Base.{
  ℕ, ◌≡◌, refl, arith, ap, sym, ◌∙◌, List, [], ◌∷◌, ◌++◌, Option, some, none, true, false, All,
  ◌>>=◌, ◌==◌, ==_refl, reverse, inl, inr,
}
use c_chat_server.Os.{Os, Status, success, failure, epoll_del}
use c_chat_server.Os.Laws.{Status-cases}
use c_chat_server.Client.{ClientInfo}
use c_chat_server.Server.{
  Server, update, get_client-some, lock-free, remove_each, remove_all_clients,
}
use c_chat_server.Server.ListLaws.{cleanup-cleaned}

-- An address is none of the list.
abbrev pub IsNot : ℕ → List ℕ → Type 0
IsNot q l = All (λ p. (p == q) ≡ false) l

-- No address is twice in the list.
abbrev pub IsDistinct : List ℕ → Type 0
IsDistinct [] = Unit {0}
IsDistinct (p ∷ ps) = IsNot p ps × IsDistinct ps

abbrev pub IsAllocated : {W : Type 0} → Server W → List ℕ → Type 0
IsAllocated s l = All (λ p. (c : ClientInfo) × (s.clients p ≡ some c)) l

-- The clients of the list are freed, and all others are as they were.
pub record Frees {W : Type 0} (l : List ℕ) (s s' : Server W) : Type 0 where
  pub gone : All (λ p. s'.clients p ≡ none) l
  pub others : (q : ℕ) → IsNot q l → s'.clients q ≡ s.clients q
  pub list : s'.client_list ≡ s.client_list

-- All are freed and the mutex is free; or, behind some that are freed, the `close` of the next one
-- fails, it and those behind it stay, and the mutex is as it was.
pub data RemovesEach (os : Os) (l : List ℕ) (s : Server os.World)
    (r : Option (Status × Server os.World)) : Type 0 where
  all_freed :
      (s' : Server os.World)
      → r ≡ some (success, s')
      → s'.locked ≡ false
      → Frees l s s'
      → RemovesEach os l s r
  left_over :
      (before after : List ℕ) (p : ℕ) (c : ClientInfo) (s0 s' : Server os.World)
      → l ≡ before ++ p ∷ after
      → s.clients p ≡ some c
      → remove_each os before s ≡ some (success, s0)
      → os.close c.client_fd (os.epoll_ctl epoll_del c.client_fd s0.world).1 ≡ (failure, s'.world)
      → r ≡ some (failure, s')
      → s'.locked ≡ s.locked
      → Frees before s s'
      → RemovesEach os l s r

module _ (os : Os) where
  -- The server behind the removal of one client.
  without : Server os.World → ℕ → os.World → Server os.World
  without s p w = record s { world = w; clients = update s.clients p none }

  other-update :
      (s : Server os.World) (p q : ℕ) (w : os.World)
      → (p == q) ≡ false
      → (without s p w).clients q ≡ s.clients q
  unfolding without
  other-update s p q w ne = rw ne

  swap : (p q : ℕ) → (p == q) ≡ false → (q == p) ≡ false
  swap p q ne = ground arith

  keep :
      (s : Server os.World) (p : ℕ) (w : os.World) (l : List ℕ)
      → IsNot p l
      → IsAllocated s l
      → IsAllocated (without s p w) l
  keep s p w [] ne h = tt
  keep s p w (q ∷ qs) (miss, ne) ((c, here), h) =
      ((c, other-update s p q w (swap q p miss) ∙ here), keep s p w qs ne h)

  more-Frees :
      (s s' : Server os.World) (p : ℕ) (w : os.World) (l : List ℕ)
      → IsNot p l
      → Frees l (without s p w) s'
      → Frees (p ∷ l) s s'
  unfolding without
  more-Frees s s' p w l ne f = record {
    gone = (f.others p ne ∙ (rw (==_refl p)), f.gone);
    others = λ q h. f.others q h.1 ∙ other-update s p q w h.0;
    list = f.list;
  }

  remove_each-RemovesEach :
      (l : List ℕ) (s : Server os.World)
      → IsDistinct l
      → IsAllocated s l
      → RemovesEach os l s (remove_each os l s)
  unfolding remove_each without
  remove_each-RemovesEach [] s d h =
      all_freed (record s { locked = false }) refl refl
        (record { gone = tt; others = λ q n. refl; list = refl })
  remove_each-RemovesEach (p ∷ ps) s (ne, d) ((c, here), h) =
      let s1 : Server os.World = record s {
        world = (os.epoll_ctl epoll_del c.client_fd s.world).1;
      } in
      let w : os.World = (os.close c.client_fd s1.world).1 in
      let done = cleanup-cleaned os s1 p c here in
      elim (Status-cases (os.close c.client_fd s1.world).0) [
        | inr stays ↦
            left_over [] ps p c (record s { locked = false }) (record s { world = w }) refl here
              refl (ap (λ r. (r, w)) stays) (rw (get_client-some p s here, ◌>>=◌, done, stays)) refl
              (record { gone = tt; others = λ q n. refl; list = refl })
        | inl closed ↦
            let run : (l : List ℕ) → remove_each os (p ∷ l) s ≡ remove_each os l (without s p w) =
              λ l. rw (remove_each, get_client-some p s here, ◌>>=◌, done, closed) in
            elim (remove_each-RemovesEach ps (without s p w) d (keep s p w ps ne h)) [
              | all_freed s' rest free f ↦
                  all_freed s' (run ps ∙ rest) free (more-Frees s s' p w ps ne f)
              | left_over before after q e s0 s' split there gone shut rest still f ↦
                  left_over (p ∷ before) after q e s0 s' (ap (◌∷◌ p) split)
                    (sym (other-update s p q w (apart before after q ps split ne)) ∙ there)
                    (run before ∙ gone) shut (run ps ∙ rest) still
                    (more-Frees s s' p w before (front before after q ps split ne) f)
            ]
      ]
    where
      apart :
          (before after : List ℕ) (q : ℕ) (ps : List ℕ)
          → ps ≡ before ++ q ∷ after
          → IsNot p ps
          → (p == q) ≡ false
      apart [] after q ps split h =
          let h' : IsNot p (q ∷ after) = subst (IsNot p) split h in swap q p h'.0
      apart (b ∷ bs) after q ps split h =
          let h' : IsNot p (b ∷ (bs ++ q ∷ after)) = subst (IsNot p) split h in
          apart bs after q (bs ++ q ∷ after) refl h'.1

      front :
          (before after : List ℕ) (q : ℕ) (ps : List ℕ)
          → ps ≡ before ++ q ∷ after
          → IsNot p ps
          → IsNot p before
      front [] after q ps split h = tt
      front (b ∷ bs) after q ps split h =
          let h' : IsNot p (b ∷ (bs ++ q ∷ after)) = subst (IsNot p) split h in
          (h'.0, front bs after q (bs ++ q ∷ after) refl h'.1)

  -- With the mutex free, no address twice in the list, and every client of the list allocated:
  -- `remove_all_clients` returns. It returns 0, then every client of the list is freed and the
  -- mutex is free; or the `close` of a client, which is called behind the removal of those behind
  -- it in the list, fails, and it returns -1 with the mutex still locked, after it has freed
  -- exactly those. In both cases no other client is
  -- touched, and the list still holds all the addresses.
  pub remove_all_clients-RemovesEach :
      (s : Server os.World)
      → s.locked ≡ false
      → IsDistinct (reverse s.client_list)
      → IsAllocated s (reverse s.client_list)
      → RemovesEach os
          (reverse s.client_list)
          (record s { locked = true })
          (remove_all_clients os s)
  unfolding remove_all_clients
  remove_all_clients-RemovesEach s free d h =
      rw (lock-free s free, ◌>>=◌)
        (remove_each-RemovesEach (reverse s.client_list) (record s { locked = true }) d h)
