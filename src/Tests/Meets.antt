-- ===== src/Tests/Meets.antt =====
-- An exchange of two nodes (src/p2p.rs) at a concrete input.
use aether_sedc.Prelude.{◌+◌, refl, [], ◌∷◌, none, some, true, arith, Has, ◌==◌, if◌then◌else◌}
use aether_sedc.P2p.{Codec, P2PNetwork, View}
use aether_sedc.P2p.Sync.{exchange, exchange_delivers}
use aether_sedc.Tests.{payment}

-- An encoding of the one transaction.
abbrev codec : Codec
codec = record {
  serialize = λ tx. tx.id + 1000;
  deserialize = λ bytes. if bytes == 1100 then some payment else none;
}

abbrev empty : View
empty = record {
  readable = true;
  dag = record { transactions = []; children = []; tips = [] };
  tips = [];
}

abbrev full : View
full = record {
  readable = true;
  dag = record {
    transactions = (100, payment) ∷ [];
    children = (0, 100 ∷ 100 ∷ []) ∷ [];
    tips = (100, tt) ∷ [];
  };
  tips = 100 ∷ [];
}

abbrev peer : P2PNetwork
peer = record {
  local_addr = 1;
  peers = [];
  known_peers = [];
  seen_transactions = [];
  sent = [];
  discovered = [];
}

exchange_delivers_example : Has payment (exchange codec empty full 7 peer peer).sent
exchange_delivers_example =
    exchange_delivers codec empty full 7 peer peer 100 payment refl refl refl refl refl refl
      (omega arith)
