-- ===== src/Http/Json/Client.antt =====
-- A client of `GET /nodes` that knows only the names of the fields, and what it reads of the answer.
use bipa_coding_challenge.Common.{
  ◌≡◌, refl, Option, none, some, Text, List, [], ◌∷◌, codes, text_eq, if◌then◌else◌, map, All, ok,
}
use bipa_coding_challenge.Common.Int.{ℤ}
use bipa_coding_challenge.Domain.{Node}
use bipa_coding_challenge.Domain.Format.RoundTrip.{read_btc, read_btc-format_btc}
use bipa_coding_challenge.Domain.Time.{
  Chrono, ChronoLaws, InRfc3339Years, timestamp_from_unix, parse-format_timestamp,
}
use bipa_coding_challenge.Http.Response.{node_list, from_node}
use bipa_coding_challenge.Http.Json.{
  Object, Json, object, array, node_object, to_json, SerdeWriter, body_text,
}

infixl 5 ◌>>=◌
abbrev ◌>>=◌ : {A B : Type 0} → Option A → (A → Option B) → Option B
none >>= next = none
some a >>= next = next a

-- The member of that name, wherever it stands.
abbrev pub member : Text → Object → Option Text
member name [] = none
member name ((key, value) ∷ rest) = if text_eq name key then some value else member name rest

module _ (c : Chrono) (laws : ChronoLaws c) where
  pub read_node : Object → Option (Node c.Instant)
  read_node o = do
    public_key ← member (codes "public_key") o
    alias ← member (codes "alias") o
    capacity ← member (codes "capacity") o
    first_seen ← member (codes "first_seen") o
    sats ← read_btc capacity
    instant ← laws.parse_from_rfc3339 first_seen
    some (record {
      public_key = public_key;
      alias = alias;
      capacity_sats = sats;
      first_seen = instant;
    })

  pub read_nodes : List Object → Option (List (Node c.Instant))
  unfolding read_node
  read_nodes [] = some []
  read_nodes (o ∷ objects) = do node ← read_node o; nodes ← read_nodes objects; some (node ∷ nodes)

  abbrev array_of : Json → Option (List Object)
  array_of (object o) = none
  array_of (array objects) = some objects

  unfoldable pub read_answer : SerdeWriter → Text → Option (List (Node c.Instant))
  unfolding read_nodes
  read_answer s text = do json ← s.read text; objects ← array_of json; read_nodes objects

  -- The node was first seen in the years that RFC 3339 can write.
  abbrev pub IsDated : Node c.Instant → Type 0
  IsDated node =
      (seen : ℤ) × InRfc3339Years seen × (timestamp_from_unix c seen ≡ ok node.first_seen)

  read_node-from_node :
      (node : Node c.Instant)
      → IsDated node
      → read_node (node_object (from_node c node)) ≡ some node
  unfolding read_node node_object from_node
  read_node-from_node node (seen, years, at_time) = rw (
    read_btc-format_btc node.capacity_sats,
    (parse-format_timestamp c laws seen node.first_seen years at_time).0,
  )

  read_nodes-from_node :
      (nodes : List (Node c.Instant))
      → All IsDated nodes
      → read_nodes (map node_object (map (from_node c) nodes)) ≡ some nodes
  unfolding read_nodes
  read_nodes-from_node [] h = refl
  read_nodes-from_node (node ∷ nodes) (dated, h) =
      rw (read_node-from_node node dated, read_nodes-from_node nodes h)

  -- From the text of a 200 answer of `GET /nodes` a client that knows only the names of the fields
  -- reads back exactly the ranking, in order: keys, aliases, satoshis and instants, if every node was
  -- first seen in the years 0 to 9999.
  pub read_answer-body_text :
      (s : SerdeWriter) (nodes : List (Node c.Instant))
      → All IsDated nodes
      → read_answer s
          (body_text s (record { status = 200; body = node_list (map (from_node c) nodes) }))
        ≡ some nodes
  unfolding read_answer body_text to_json
  read_answer-body_text s nodes h =
      rw (s.read-write (array (map node_object (map (from_node c) nodes))))
        (read_nodes-from_node nodes h)
