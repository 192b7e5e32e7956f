-- ===== src/Comms/NodeServer/Laws.antt =====
-- The bounds that a server of include/crisp/comms/bits/NodeServer.tcc keeps.
use robocrisp.Base.{
  ℕ, ◌+◌, ◌-◌, ◌<◌, ◌≤◌, ◌≡◌, ◌⊎◌, inl, inr, refl, sym, ap, ◌∙◌, subst, Bool, true, false, List, [],
  ◌∷◌, length, size_mod, ltb, leb, ◌==◌, if◌then◌else◌, Bool-cases, arith,
}
use robocrisp.Util.Signal.{erase}
use robocrisp.Comms.NodeServer.{
  Position, starting, guarding, waiting, accepting, draining, ended, Server, new, halt, goes_on,
  is_full, or_unlimited, main, accept, disconnect, Step, limits, advances, accepts, refuses,
  disconnects, halts, Reach, stays, goes,
}

length-erase : (x : ℕ) (xs : List ℕ) → length (erase x xs) ≤ length xs
unfolding erase
length-erase x [] = omega arith
length-erase x (y ∷ ys) = ground (arith, length-erase x ys)

-- No bound, or one that is kept.
abbrev pub Bounded : ℕ → ℕ → Type 0
Bounded bound n = (bound ≡ 0) ⊎ (n ≤ bound)

-- What holds where `server_main` stands.
unfoldable At : Position → Server → Type 0
At starting s = s.num_cumulative_connections ≡ 0
At guarding s = 0 < s.max_cumulative_connections
At waiting s = s.num_cumulative_connections < s.max_cumulative_connections
At accepting s =
    (s.num_cumulative_connections < s.max_cumulative_connections)
    × Bounded s.max_simultaneous_connections (length s.nodes)
At draining s = s.num_cumulative_connections ≤ s.max_cumulative_connections
At ended s =
    (s.num_cumulative_connections ≤ s.max_cumulative_connections)
    × (length s.nodes ≡ 0)
    × (s.stopped ≡ true)

abbrev pub is_ended : Position → Bool
is_ended ended = true
is_ended starting = false
is_ended guarding = false
is_ended waiting = false
is_ended accepting = false
is_ended draining = false

record IsServer (cumulative : ℕ) (s : Server) : Type 0 where
  here : At s.position s
  counted : length s.nodes ≤ s.num_cumulative_connections
  bounded :
      (s.max_simultaneous_connections ≡ 0) ⊎ (length s.nodes ≤ s.max_simultaneous_connections + 1)
  limited : s.num_cumulative_connections ≤ s.max_cumulative_connections
  word : s.max_cumulative_connections < size_mod
  told : (s.halting ≡ false) ⊎ (s.stopped ≡ true)
  given : (cumulative ≡ 0) ⊎ (s.max_cumulative_connections ≡ cumulative)

module _ (c : ℕ) where
  here-At : (p : Position) (s : Server) → s.position ≡ p → IsServer c s → At p s
  here-At p s e v = subst (λ q. At q s) e v.here

  -- The server stands elsewhere, and nothing else changes.
  move-IsServer :
      (p : Position) (s : Server) → IsServer c s → At p s → IsServer c (record s { position = p })
  unfolding At
  move-IsServer p s v h = record {
    here = at p h;
    counted = v.counted;
    bounded = v.bounded;
    limited = v.limited;
    word = v.word;
    told = v.told;
    given = v.given;
  }
    where
      at : (p : Position) → At p s → At p (record s { position = p })
      at starting h = h
      at guarding h = h
      at waiting h = h
      at accepting h = h
      at draining h = h
      at ended h = h

  or_unlimited_lem :
      (n : ℕ)
      → n < size_mod
      → (c ≡ 0) ⊎ (n ≡ c)
      → (0 < or_unlimited n) × (or_unlimited n < size_mod) × ((c ≡ 0) ⊎ (or_unlimited n ≡ c))
  or_unlimited_lem n h g = elim (Bool-cases (n == 0)) [
    | inl z ↦ rw z (omega arith, omega arith, unbounded z)
    | inr z ↦ rw z (ground (arith, z), h, g)
  ]
    where
      unbounded : (n == 0) ≡ true → (c ≡ 0) ⊎ (size_mod - 1 ≡ c)
      unbounded z = elim g [ inl k ↦ inl k | inr k ↦ inl (ground (arith, k, z)) ]

  halt-At :
      (p : Position) (s : Server) → At p s → At p (record s { halting = true; stopped = true })
  unfolding At
  halt-At starting s h = h
  halt-At guarding s h = h
  halt-At waiting s h = h
  halt-At accepting s h = h
  halt-At draining s h = h
  halt-At ended s h = (h.0, h.1, refl)

  if-IsServer :
      (b : Bool) (s s' : Server) → IsServer c s → IsServer c s' → IsServer c (if b then s else s')
  if-IsServer true s s' v v' = v
  if-IsServer false s s' v v' = v'

  halt-IsServer : (s : Server) → IsServer c s → IsServer c (halt s)
  unfolding halt
  halt-IsServer s v = if-IsServer s.halting s _ v (record {
    here = halt-At s.position s v.here;
    counted = v.counted;
    bounded = v.bounded;
    limited = v.limited;
    word = v.word;
    told = inr refl;
    given = v.given;
  })

  -- What `halt` leaves.
  halt_lem : (s : Server) → IsServer c s → ((halt s).stopped ≡ true) × ((halt s).nodes ≡ s.nodes)
  unfolding halt
  halt_lem s v = elim v.told [
    | inl h ↦ rw h (refl, refl)
    | inr h ↦ elim (Bool-cases s.halting) [ inl k ↦ rw k (h, refl) | inr k ↦ rw k (refl, refl) ]
  ]

  open_count :
      (s : Server)
      → s.position ≡ guarding
      → IsServer c s
      → goes_on s ≡ true
      → s.num_cumulative_connections < s.max_cumulative_connections
  unfolding At
  open_count s e v g =
      let positive : 0 < s.max_cumulative_connections = here-At guarding s e v in ground (arith, g)

  main-IsServer :
      (p : Position) (s : Server) → s.position ≡ p → IsServer c s → IsServer c (main p s)
  unfolding main At
  main-IsServer starting s e v =
      let zero_count : s.num_cumulative_connections ≡ 0 = here-At starting s e v in
      let n = or_unlimited_lem s.max_cumulative_connections v.word v.given in
      record {
        here = n.0;
        counted = v.counted;
        bounded = v.bounded;
        limited = omega (arith, zero_count);
        word = n.1;
        told = v.told;
        given = n.2;
      }
  main-IsServer guarding s e v = elim (Bool-cases (goes_on s)) [
    | inl g ↦ elim (Bool-cases (is_full s)) [
      | inl f ↦ rw (g, f) (move-IsServer waiting s v (open_count s e v g))
      | inr f ↦ rw (g, f) (move-IsServer accepting s v (open_count s e v g, ground (arith, f)))
    ]
    | inr g ↦ rw g (move-IsServer draining s v v.limited)
  ]
  main-IsServer waiting s e v =
      elim (Bool-cases (leb s.max_simultaneous_connections (length s.nodes))) [
        | inl g ↦ rw g v
        | inr g ↦
            rw g (move-IsServer accepting s v (here-At waiting s e v, inr (ground (arith, g))))
      ]
  main-IsServer accepting s e v = v
  main-IsServer draining s e v = elim (Bool-cases (ltb 0 (length s.nodes))) [
    | inl g ↦ rw g v
    | inr g ↦
        let none_left : length s.nodes ≡ 0 = ground (arith, g) in
        let halted = halt_lem s v in
        let w = halt-IsServer s v in
        rw g (move-IsServer ended (halt s) w (w.limited, ap length halted.1 ∙ none_left, halted.0))
  ]
  main-IsServer ended s e v = v

  accept-IsServer : (s : Server) → s.position ≡ accepting → IsServer c s → IsServer c (accept s)
  unfolding accept At
  accept-IsServer s e v =
      let h : At accepting s = here-At accepting s e v in
      record {
        here = omega (arith, h.0);
        counted = omega (arith, v.counted);
        bounded = elim h.1 [ inl z ↦ inl z | inr l ↦ inr (omega (arith, l)) ];
        limited = omega (arith, h.0);
        word = v.word;
        told = v.told;
        given = v.given;
      }

  disconnect-IsServer : (x : ℕ) (s : Server) → IsServer c s → IsServer c (disconnect x s)
  unfolding disconnect At
  disconnect-IsServer x s v = record {
    here = at s.position v.here;
    counted = omega (arith, v.counted, length-erase x s.nodes);
    bounded = elim v.bounded [
      | inl z ↦ inl z
      | inr l ↦ inr (omega (arith, l, length-erase x s.nodes))
    ];
    limited = v.limited;
    word = v.word;
    told = v.told;
    given = v.given;
  }
    where
      at : (p : Position) → At p s → At p (disconnect x s)
      at starting h = h
      at guarding h = h
      at waiting h = h
      at accepting h =
          (h.0, elim h.1 [ inl z ↦ inl z | inr l ↦ inr (omega (arith, l, length-erase x s.nodes)) ])
      at draining h = h
      at ended h = (h.0, omega (arith, h.1, length-erase x s.nodes), h.2)

  limit-IsServer :
      (n : ℕ) (s : Server)
      → s.position ≡ starting
      → IsServer c s
      → IsServer c (record s { max_simultaneous_connections = n })
  unfolding At
  limit-IsServer n s e v =
      let zero_count : s.num_cumulative_connections ≡ 0 = here-At starting s e v in
      record {
        here = subst (λ p. At p (record s { max_simultaneous_connections = n })) (sym e) zero_count;
        counted = v.counted;
        bounded = inr (omega (arith, v.counted, zero_count));
        limited = v.limited;
        word = v.word;
        told = v.told;
        given = v.given;
      }

  Step-IsServer : (s s' : Server) → Step s s' → IsServer c s → IsServer c s'
  unfolding At
  Step-IsServer s s' (limits n e) v = limit-IsServer n s e v
  Step-IsServer s s' advances v = main-IsServer s.position s refl v
  Step-IsServer s s' (accepts e) v = accept-IsServer s e v
  Step-IsServer s s' (refuses e) v = move-IsServer draining s v v.limited
  Step-IsServer s s' (disconnects x) v = disconnect-IsServer x s v
  Step-IsServer s s' halts v = halt-IsServer s v

  new-IsServer : (n : ℕ) → c < size_mod → IsServer c (new n c)
  unfolding At
  new-IsServer n h = record {
    here = refl;
    counted = omega arith;
    bounded = inl refl;
    limited = omega arith;
    word = h;
    told = inl refl;
    given = inr refl;
  }

  Reach-IsServer : (n : ℕ) (s : Server) → c < size_mod → Reach (new n c) s → IsServer c s
  Reach-IsServer n s h stays = new-IsServer n h
  Reach-IsServer n s' h (goes {s} r step) = Step-IsServer s s' step (Reach-IsServer n s h r)

end_lem :
    (p : Position) (s : Server)
    → At p s
    → (is_ended p ≡ false) ⊎ ((length s.nodes ≡ 0) × (s.stopped ≡ true))
unfolding At
end_lem starting s h = inl refl
end_lem guarding s h = inl refl
end_lem waiting s h = inl refl
end_lem accepting s h = inl refl
end_lem draining s h = inl refl
end_lem ended s h = inr (h.1, h.2)

-- A server is made with bounds that fit in 64 bits, the bound on simultaneous connections is set before
-- it starts, and then connections are accepted and refused, nodes disconnect and `halt` is called, in
-- any order between the steps of `server_main`. There are never more nodes than one above the bound on
-- simultaneous connections, if that is not 0, and never more than were accepted; at most as many are
-- accepted as the second argument of the constructor says, if that is not 0, and fewer than 2^64. When
-- `server_main` has come to its end, there are no nodes left and the server has stopped.
pub Reach-bounds :
    (simultaneous cumulative : ℕ) (s : Server)
    → cumulative < size_mod
    → Reach (new simultaneous cumulative) s
    → ((s.max_simultaneous_connections ≡ 0) ⊎ (length s.nodes ≤ s.max_simultaneous_connections + 1))
      × (length s.nodes ≤ s.num_cumulative_connections)
      × ((cumulative ≡ 0) ⊎ (s.num_cumulative_connections ≤ cumulative))
      × (s.num_cumulative_connections < size_mod)
      × ((is_ended s.position ≡ false) ⊎ ((length s.nodes ≡ 0) × (s.stopped ≡ true)))
Reach-bounds n c s h r =
    let v = Reach-IsServer c n s h r in
    (
      v.bounded,
      v.counted,
      elim v.given [ inl z ↦ inl z | inr e ↦ inr (omega (arith, v.limited, e)) ],
      omega (arith, v.limited, v.word),
      end_lem s.position s v.here,
    )
