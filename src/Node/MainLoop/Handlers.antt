-- ===== src/Node/MainLoop/Handlers.antt =====
-- crates/node/src/main_loop.rs, `handle_message`: what becomes of the handlers of a node.
use threshold.Prelude.{
  ◌≡◌, refl, sym, arith, ℕ, suc, List, [], ◌∷◌, Memᴰ, Eq, Result, ok, err, NodeError, Action,
  length,
}
use threshold.Types.Network.{World, NetworkEvent}
use threshold.Node.{NodeState, Services, At}
use threshold.Node.MainLoop.{Running, after_handler, handle_all, handle_message, put_back, start}

module _ {w : World} ⦃q : Eq w.PeerId⦄ (sv : Services w) {H : Type 0}
    (run : NetworkEvent w → Action (At H w) (Unit {0})) where
  after-length :
      (r : Result (Unit {0})) (s : At H w) (rest : Result (List H) × NodeState w) {hs : List H}
      {n : ℕ}
      → ((hs' : List H) → rest.0 ≡ ok hs' → length hs' ≡ n)
      → (after_handler r s rest).0 ≡ ok hs
      → length hs ≡ suc n
  after-length (ok u) s (ok hs', m) k h = ground (arith, k hs' refl)
  after-length (ok u) s (err e, m) k h = absurd (cc)
  after-length (err e) s rest k h = absurd (cc)

  handle_all-length :
      (event : NetworkEvent w) (hs : List H) (n : NodeState w) {hs' : List H}
      → (handle_all sv run event hs n).0 ≡ ok hs'
      → length hs' ≡ length hs
  unfolding handle_all
  handle_all-length event [] n h = ground arith
  handle_all-length event (g ∷ hs) n h =
      let (r, s) = run event (record { own = g; node = n }) in
      after-length r s (handle_all sv run event hs s.node)
        (λ hs'. handle_all-length event hs s.node {hs' = hs'}) h

  put_back-length :
      (event : NetworkEvent w) (n : ℕ) (p : Result (List H) × NodeState w)
      → ((hs' : List H) → p.0 ≡ ok hs' → length hs' ≡ n)
      → (put_back sv run event p).0 ≡ ok tt
      → length (put_back sv run event p).1.handlers ≡ n
  put_back-length event n (ok hs, m) k h = k hs refl
  put_back-length event n (err e, m) k h = absurd (cc)

  -- A message that every handler takes leaves the node with as many handlers as it had.
  pub handle_message-length :
      (event : NetworkEvent w) (s : Running H w)
      → (handle_message sv run event s).0 ≡ ok tt
      → length (handle_message sv run event s).1.handlers ≡ length s.handlers
  unfolding handle_message
  handle_message-length event s h =
      put_back-length event (length s.handlers) (handle_all sv run event s.handlers s.node)
        (λ hs'. handle_all-length event s.handlers s.node {hs' = hs'}) h

  after-refuses :
      (r : Result (Unit {0})) (s : At H w) (rest : Result (List H) × NodeState w)
      → (r ≡ ok tt → (e : NodeError) × (rest.0 ≡ err e))
      → (e : NodeError) × ((after_handler r s rest).0 ≡ err e)
  after-refuses (err e) s rest k = (e, refl)
  after-refuses (ok u) s (err e, n) k = (e, refl)
  after-refuses (ok u) s (ok hs, n) k = let (e, p) = k refl in absurd (cc)

  handle_all-refuses :
      (event : NetworkEvent w) (g : H) (hs : List H) (n : NodeState w)
      → ((m : NodeState w)
          → (e : NodeError) × ((run event (record { own = g; node = m })).0 ≡ err e))
      → Memᴰ g hs
      → (e : NodeError) × ((handle_all sv run event hs n).0 ≡ err e)
  unfolding handle_all
  handle_all-refuses event g [] n k m = elim m [ ]
  handle_all-refuses event g (f ∷ hs) n k (Memᴰ.head p) =
      let (r, s) = run event (record { own = f; node = n }) in
      let (e, refused) = k n in
      let refused' : (run event (record { own = f; node = n })).0 ≡ err e = rw (sym p) refused in
      after-refuses r s (handle_all sv run event hs s.node) (λ fine. absurd (cc))
  handle_all-refuses event g (f ∷ hs) n k (Memᴰ.tail m) =
      let (r, s) = run event (record { own = f; node = n }) in
      after-refuses r s (handle_all sv run event hs s.node)
        (λ fine. handle_all-refuses event g hs s.node k m)

  put_back-drops :
      (event : NetworkEvent w) (p : Result (List H) × NodeState w) {e : NodeError}
      → (put_back sv run event p).0 ≡ err e
      → (put_back sv run event p).1.handlers ≡ []
  put_back-drops event (ok hs, m) h = absurd (cc)
  put_back-drops event (err e, m) h = refl

  idle :
      (event : NetworkEvent w) (s : Running H w)
      → s.handlers ≡ []
      → (handle_message sv run event s).1.handlers ≡ []
  unfolding handle_message handle_all
  idle event s h = rw h refl

  start-idle :
      (events : List (NetworkEvent w)) (s : Running H w)
      → s.handlers ≡ []
      → (start sv run events s).handlers ≡ []
  unfolding start
  start-idle [] s h = h
  start-idle (event ∷ events) s h =
      start-idle events (handle_message sv run event s).1 (idle event s h)

  put_back-refuses :
      (event : NetworkEvent w) (p : Result (List H) × NodeState w)
      → (e : NodeError) × (p.0 ≡ err e)
      → (e : NodeError) × ((put_back sv run event p).0 ≡ err e)
  put_back-refuses event (ok hs, m) (e, h) = absurd (cc)
  put_back-refuses event (err x, m) (e, h) = (x, refl)

  -- After a message that some handler of a node refuses, whatever the state of the node, the node has no
  -- handlers, and it has none after any messages that follow.
  pub handle_message-disabled :
      (event : NetworkEvent w) (events : List (NetworkEvent w)) (g : H) (s : Running H w)
      → Memᴰ g s.handlers
      → ((n : NodeState w)
          → (e : NodeError) × ((run event (record { own = g; node = n })).0 ≡ err e))
      → (start sv run events (handle_message sv run event s).1).handlers ≡ []
  unfolding handle_message
  handle_message-disabled event events g s m refuses =
      let p = handle_all sv run event s.handlers s.node in
      let (e, refused) =
        put_back-refuses event p (handle_all-refuses event g s.handlers s.node refuses m) in
      start-idle events (handle_message sv run event s).1 (put_back-drops event p refused)
