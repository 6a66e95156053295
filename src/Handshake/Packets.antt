-- ===== src/Handshake/Packets.antt =====
-- The packets on their way in web-rpc/src/interface.rs.
use web_rpc.Prelude.{◌≡◌, refl, ap, Bool, true, false, List, [], ◌∷◌, ◌++◌}
use web_rpc.Handshake.Interface.{Packet, null, array}

module _ (Message : Type 0) where
  unfoldable pub arrays : List (Packet Message) → List Message
  arrays [] = []
  arrays (null ∷ ps) = arrays ps
  arrays (array m ∷ ps) = m ∷ arrays ps

  unfoldable pub has_null : List (Packet Message) → Bool
  has_null [] = false
  has_null (null ∷ ps) = true
  has_null (array m ∷ ps) = has_null ps

  pub arrays-receive_null : (ps : List (Packet Message)) → arrays (ps ++ null ∷ []) ≡ arrays ps
  unfolding arrays
  arrays-receive_null [] = refl
  arrays-receive_null (null ∷ ps) = arrays-receive_null ps
  arrays-receive_null (array m ∷ ps) = ap (◌∷◌ m) (arrays-receive_null ps)

  pub arrays-receive_array :
      (ps : List (Packet Message)) (m : Message) → arrays (ps ++ array m ∷ []) ≡ arrays ps ++ m ∷ []
  unfolding arrays
  arrays-receive_array [] m = refl
  arrays-receive_array (null ∷ ps) m = arrays-receive_array ps m
  arrays-receive_array (array n ∷ ps) m = ap (◌∷◌ n) (arrays-receive_array ps m)

  pub has_null-receive : (ps : List (Packet Message)) → has_null (ps ++ null ∷ []) ≡ true
  unfolding has_null
  has_null-receive [] = refl
  has_null-receive (null ∷ ps) = refl
  has_null-receive (array m ∷ ps) = has_null-receive ps

  pub has_null-more :
      (ps : List (Packet Message)) (m : Message) → has_null (ps ++ array m ∷ []) ≡ has_null ps
  unfolding has_null
  has_null-more [] m = refl
  has_null-more (null ∷ ps) m = refl
  has_null-more (array n ∷ ps) m = has_null-more ps m
