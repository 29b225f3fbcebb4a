-- ===== src/Cache/Tests.antt =====
-- src/Cache.cpp at concrete states: a file that two chunks go to.
use cdn_uring.Prelude.{◌==◌, refl, false, none, some, [], ◌∷◌, arith, if◌then◌else◌}
use cdn_uring.Prelude.Int.{pos}
use cdn_uring.World.{Request, Node, World}
use cdn_uring.Stream.Registry.{create_mux}
use cdn_uring.Stream.Ring.{Holds, fresh-Holds, ring_after, ring_after-Holds}
use cdn_uring.Stream.Tests.{small, live_stream, serving_two, chunk, chunks, sound}
use cdn_uring.Cache.Buffer.{create_node}
use cdn_uring.Cache.Writer.{IsStoring, OnDisk, Appends, total, append_buffer-Appends}

-- The request that writes the file, at 5, with the content file open as 9.
abbrev pub writer : Request
writer = record {
  event_type = 0;
  client_socket = pos 9;
  auxiliar = pos 0;
  resource_id = 7;
  pivot = 0;
  debug = false;
  is_processing = false;
  iov = record { len = 8; cap = 8; base = [] } ∷ [];
}

abbrev pub new_node : Node
new_node = create_node small 5

abbrev storing : World
storing = record serving_two {
  heap = λ p. if p == 5 then some writer else none;
  nodes = λ id. if id == 7 then some new_node else none;
}

storing-IsStoring : IsStoring small 7 chunk 0 0 new_node storing
unfolding create_node total
storing-IsStoring = record {
  found = refl;
  ring = fresh-Holds small 4 chunk (omega arith);
  size = refl;
  request = writer;
  writer = record { live = refl; has_block = omega arith; large = omega arith };
  member = refl;
  place = refl;
  behind = omega arith;
  near = omega arith;
}

storing-OnDisk : OnDisk 7 storing
unfolding create_mux
storing-OnDisk = record { mux = live_stream; known = refl; on_disk = refl }

append_buffer-Appends_example : Appends small 7 chunk 0 0 writer new_node storing
unfolding storing-IsStoring
append_buffer-Appends_example =
    append_buffer-Appends small 7 chunk 0 0 new_node storing sound chunks storing-IsStoring
      storing-OnDisk (omega arith)

-- The node after one chunk came, which the writer has not looked at.
abbrev filled_node : Node
filled_node = record new_node { buffer = ring_after small 4 new_node.buffer 0 (chunk 0); pivot = 1 }

abbrev holding : World
holding = record storing { nodes = λ id. if id == 7 then some filled_node else none }

filled_node-Holds : Holds small 4 chunk 1 filled_node.buffer filled_node.pivot
unfolding create_node
filled_node-Holds =
    ring_after-Holds small 4 chunk 0 new_node.buffer 0 sound
      (fresh-Holds small 4 chunk (omega arith)) (chunks 0)

holding-IsStoring : IsStoring small 7 chunk 1 0 filled_node holding
unfolding create_node total
holding-IsStoring = record {
  found = refl;
  ring = filled_node-Holds;
  size = refl;
  request = writer;
  writer = record { live = refl; has_block = omega arith; large = omega arith };
  member = refl;
  place = refl;
  behind = omega arith;
  near = omega arith;
}
