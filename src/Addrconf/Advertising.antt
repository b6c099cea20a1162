-- ===== src/Addrconf/Advertising.antt =====
-- How the server of pmip/addrconf_server.cpp advertises, and for whom.
use odi_mm.Base.{
  ◌⊎◌, inl, inr, Bool-cases, [], ℕ, zero, suc, ◌≡◌, refl, ap, ◌∙◌, true, false, List, ◌∷◌, ◌++◌,
  replicate, none, some, find, put, erase, find-put, find-erase, list_eq, nat_eq, eq_refl,
}
use odi_mm.Types.{Prefix}
use odi_mm.Run.{Run, done, ◌>>=◌}
use odi_mm.Addrconf.State.{
  Advertisement, Client, Wait, Server, Multicast, mem, cancel, router_advertisement, expire, fire,
  join, add, del, client_of,
}

replicate-cons :
    {A : Type 0} (n : ℕ) (a : A) (rest : List A)
    → replicate n a ++ (a ∷ rest) ≡ a ∷ (replicate n a ++ rest)
replicate-cons zero a rest = refl
replicate-cons (suc n) a rest = ap (◌∷◌ a) (replicate-cons n a rest)

module _ {A : Type 0} where
  find-erase_same : (t : ℕ) (m : List (ℕ × Wait A)) → find t (erase t m) ≡ none
  find-erase_same t m = rw (find-erase t t m, eq_refl t) refl

  find-erase_client : (a : List ℕ) (m : List (List ℕ × Client A)) → find a (erase a m) ≡ none
  find-erase_client a m = rw (find-erase a a m, eq_refl a) refl

  find-put_same : (t : ℕ) (w : Wait A) (m : List (ℕ × Wait A)) → find t (put t w m) ≡ some w
  find-put_same t w m = rw (find-put t t w m, eq_refl t) refl

  -- A timer without a wait does nothing.
  expire-idle : (t : ℕ) (s : Server A) → find t s.waits ≡ none → expire t s ≡ s
  unfolding expire
  expire-idle t s e = rw (expire, e) refl

  fire-idle : (t : ℕ) (s : Server A) → find t s.waits ≡ none → fire t s ≡ done s
  unfolding fire
  fire-idle t s e = rw (fire, e) refl

  idle : (t : ℕ) (s : Server A) → find t s.waits ≡ none → fire t (expire t s) ≡ done s
  idle t s e = ap (fire t) (expire-idle t s e) ∙ fire-idle t s e

  module _ (s : Server A) (c : Client A) (wait : Wait A) (addr : List ℕ) where
    del_early :
        find addr s.clients ≡ some c
        → find c.ra_timer s.waits ≡ some wait
        → wait.due ≡ false
        → del addr s
          ≡ (true, record s { clients = erase addr s.clients; waits = erase c.ra_timer s.waits })
    unfolding del cancel
    del_early found waits early = rw (del, found, cancel, waits, early) refl

    del_late :
        find addr s.clients ≡ some c
        → find c.ra_timer s.waits ≡ some wait
        → wait.due ≡ true
        → del addr s ≡ (true, record s { clients = erase addr s.clients })
    unfolding del cancel
    del_late found waits late = rw (del, found, cancel, waits, late) refl

    -- A client whose timer is not due is deleted with its wait: neither the end of a wait nor a call
    -- of its handler then sends an advertisement, and the client is not found.
    pub del-stops :
        find addr s.clients ≡ some c
        → find c.ra_timer s.waits ≡ some wait
        → wait.due ≡ false
        → ((del addr s).0 ≡ true)
          × (find addr (del addr s).1.clients ≡ none)
          × (fire c.ra_timer (expire c.ra_timer (del addr s).1) ≡ done (del addr s).1)
    del-stops found waits early = rw (del_early found waits early) (
      refl,
      find-erase_client addr s.clients,
      idle c.ra_timer _ (find-erase_same c.ra_timer s.waits),
    )

  abbrev pub IsDue : ℕ → Server A → Advertisement A → Type 0
  IsDue t s ras = find t s.waits ≡ some (record { ras = ras; due = true })

  -- The next round of a timer whose handler is to be called: the call, and the end of the wait.
  abbrev pub round : ℕ → Server A → Run (Server A)
  round t s = do s' ← fire t s; done (expire t s')

  abbrev pub rounds : ℕ → ℕ → Server A → Run (Server A)
  rounds t zero s = done s
  rounds t (suc n) s = do s' ← round t s; rounds t n s'

  abbrev advertised : ℕ → Server A → Advertisement A → Server A
  advertised t s ras = record s {
    adverts = ras ∷ s.adverts;
    waits =
        put t (record { ras = ras; due = true })
          (put t (record { ras = ras; due = false }) (erase t s.waits));
  }

  round-advertises :
      (t : ℕ) (s : Server A) (ras : Advertisement A)
      → IsDue t s ras
      → round t s ≡ done (advertised t s ras)
  unfolding expire fire router_advertisement ◌>>=◌
  round-advertises t s ras e =
      rw
        (
          fire,
          e,
          ◌>>=◌,
          expire,
          find-put_same t (record { ras = ras; due = false }) (erase t s.waits),
        )
        refl

  rounds-advertise :
      (t n : ℕ) (s : Server A) (ras : Advertisement A)
      → IsDue t s ras
      → (s' : Server A) × (rounds t n s ≡ done s')
        × (s'.adverts ≡ replicate n ras ++ s.adverts)
        × (s'.clients ≡ s.clients)
  unfolding ◌>>=◌
  rounds-advertise t zero s ras e = (s, refl, refl, refl)
  rounds-advertise t (suc n) s ras e =
      let next = advertised t s ras in
      let (s', run, sent, same) = rounds-advertise t n next ras (find-put_same t _ _) in
      (s', rw (round-advertises t s ras e, ◌>>=◌) run, sent ∙ replicate-cons n ras s.adverts, same)

  -- A client whose timer is due when it is deleted is still advertised to: the call of the handler
  -- that the timer owes starts the timer again, so that each further round sends its advertisement,
  -- to a client that the server does not have.
  pub late_deletion-advertises :
      (s : Server A) (c : Client A) (ras : Advertisement A) (addr : List ℕ) (n : ℕ)
      → find addr s.clients ≡ some c
      → IsDue c.ra_timer s ras
      → (s' : Server A) × (rounds c.ra_timer n (del addr s).1 ≡ done s')
        × (s'.adverts ≡ replicate n ras ++ s.adverts)
        × (find addr s'.clients ≡ none)
  late_deletion-advertises s c ras addr n found late =
      let deleted = record s { clients = erase addr s.clients } in
      let (s', run, sent, same) = rounds-advertise c.ra_timer n deleted ras late in
      (
        s',
        rw (del_late s c _ addr found late refl) run,
        sent,
        rw (same, find-erase_client addr s.clients) refl,
      )

  -- What `add` does for a link address that no client has, on an interface that is in the group: the
  -- first advertisement is sent at once and the timer waits for the next one, when there is a prefix.
  pub add-advertises :
      (m : Multicast) (s : Server A) (ai : Advertisement A) (p : Prefix) (ps : List Prefix)
      → find ai.dst_link_address s.clients ≡ none
      → mem ai.device_id s.mcast_interfaces ≡ true
      → ai.prefix_list ≡ p ∷ ps
      → add m ai s
        ≡ done (
          true,
          record s {
            clients = put ai.dst_link_address (client_of ai s.next_timer) s.clients;
            next_timer = suc s.next_timer;
            adverts = ai ∷ s.adverts;
            waits = put s.next_timer (record { ras = ai; due = false }) s.waits;
          },
        )
  unfolding add join router_advertisement ◌>>=◌
  add-advertises m s ai p ps free known listed = rw (add, free, join, known, ◌>>=◌, listed) refl

  join_allowed :
      (m : Multicast) (d : ℕ) (s : Server A)
      → (mem d s.mcast_interfaces ≡ true) ⊎ (m.joins s.joined d ≡ true)
      → (s' : Server A) × (join m d s ≡ done s') × (s'.clients ≡ s.clients)
  unfolding join
  join_allowed m d s (inl known) = (s, rw (join, known) refl, refl)
  join_allowed m d s (inr allowed) = elim (Bool-cases (mem d s.mcast_interfaces)) [
    | inl known ↦ (s, rw (join, known) refl, refl)
    | inr new ↦ (
      record s { mcast_interfaces = d ∷ s.mcast_interfaces; joined = d ∷ s.joined },
      rw (join, new, allowed) refl,
      refl,
    )
  ]

  find-put_client :
      (a : List ℕ) (c : Client A) (m : List (List ℕ × Client A)) → find a (put a c m) ≡ some c
  find-put_client a c m = rw (find-put a a c m, eq_refl a) refl

  add-joined :
      (m : Multicast) (s s1 : Server A) (ai : Advertisement A) (ps : List Prefix)
      → ai.prefix_list ≡ ps
      → find ai.dst_link_address s.clients ≡ none
      → join m ai.device_id (record s {
        clients = put ai.dst_link_address (client_of ai s.next_timer) s.clients;
        next_timer = suc s.next_timer;
      })
        ≡ done s1
      → (s' : Server A) × (add m ai s ≡ done (true, s')) × (s'.clients ≡ s1.clients)
  unfolding add router_advertisement ◌>>=◌
  add-joined m s s1 ai [] listed free joins = (s1, rw (add, free, joins, ◌>>=◌, listed) refl, refl)
  add-joined m s s1 ai (p ∷ ps) listed free joins = (
    record s1 {
      adverts = ai ∷ s1.adverts;
      waits = put s.next_timer (record { ras = ai; due = false }) s1.waits;
    },
    rw (add, free, joins, ◌>>=◌, listed) refl,
    refl,
  )

  -- What an added client is found as, when its interface is in the group or may join it.
  pub add-inserts :
      (m : Multicast) (s : Server A) (ai : Advertisement A)
      → find ai.dst_link_address s.clients ≡ none
      → (mem ai.device_id s.mcast_interfaces ≡ true) ⊎ (m.joins s.joined ai.device_id ≡ true)
      → (s' : Server A) × (add m ai s ≡ done (true, s'))
        × (find ai.dst_link_address s'.clients ≡ some (client_of ai s.next_timer))
  add-inserts m s ai free allowed =
      let c = client_of ai s.next_timer in
      let (s1, joins, same) =
        join_allowed m ai.device_id
          (record s {
            clients = put ai.dst_link_address c s.clients;
            next_timer = suc s.next_timer;
          })
          allowed in
      let (s', added, kept) = add-joined m s s1 ai ai.prefix_list refl free joins in
      (
        s',
        added,
        ap (find ai.dst_link_address) (kept ∙ same)
            ∙ find-put_client ai.dst_link_address c s.clients,
      )
