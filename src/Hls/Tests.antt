-- ===== src/Hls/Tests.antt =====
-- src/HLSStream.cpp at concrete playlists.
use cdn_uring.Prelude.{ℕ, ◌≡◌, refl, none, some, List, [], ◌∷◌, set, length, arith}
use cdn_uring.Prelude.Int.{pos}
use cdn_uring.Prelude.Text.{
  Text, codes, c_str, find, search_by, matches, substr, to_string, digits_of, to_upper,
}
use cdn_uring.Prelude.Text.Lines.{print_int}
use cdn_uring.Prelude.Result.{ok, fault, past_end}
use cdn_uring.Headers.{replace_header_tag, ci_find_substr, to_int, ci_equal, from_line_end}
use cdn_uring.Http.Parse.{string_of}
use cdn_uring.Stream.Registry.{create_mux}
use cdn_uring.Stream.Tests.{small, serving_two}
use cdn_uring.Hls.Again.{update_header-again}
use cdn_uring.Prelude.Holds.{Holds}
use cdn_uring.Hls.Aligned.{IsAligned}
use cdn_uring.Hls.Channel.{replace_all}
use cdn_uring.Hls.Client.{joined, generate_segment_client_list}
use cdn_uring.Hls.Header.{update_header}
use cdn_uring.Hls.Kept.{process_segment_list-AllAligned}
use cdn_uring.Hls.Preserve.{AllAligned, IsAligned-update}
use cdn_uring.Hls.Proxy.{replace_all-ends}
use cdn_uring.Hls.Segment.{process_segment_list}
use cdn_uring.Hls.Shown.{IsNext, shown, generate_segment_client_list-Shows}
use cdn_uring.Hls.State.{SegmentPlaylist}
use cdn_uring.Hls.Tracks.{member}
use cdn_uring.Hls.Window.{Track}
use cdn_uring.World.{Iovec, Mux, World}
use cdn_uring.World.Monad.{c_block, update, block_of}

replace_all-ends_example :
    (replaced : Text) × (replace_all (codes "p.com") (codes "b.c") 20 (codes "/p.com/p.com/x")
      ≡ ok replaced)
    × (find replaced (codes "p.com") ≡ none)
replace_all-ends_example =
    replace_all-ends (codes "p.com") (codes "b.c") 20 (codes "/p.com/p.com/x") (omega arith)
      (omega arith)

abbrev with_header : Iovec → Mux
with_header header = record (create_mux small 9 []) { header = header; requests = 1 ∷ [] }

update_header-again_example :
    update_header (with_header (block_of (codes "H\r\nContent-Length: 12\r\n"))) 7 ≡ fault past_end
unfolding update_header string_of c_str replace_header_tag ci_find_substr to_int ci_equal search_by
    matches substr from_line_end to_string digits_of to_upper create_mux
update_header-again_example =
    update_header-again (with_header (c_block (codes "H\r\nContent-Length: 0\r\n")))
      (with_header (block_of (codes "H\r\nContent-Length: 12\r\n"))) 12 7 updated
  where
    updated :
        update_header (with_header (c_block (codes "H\r\nContent-Length: 0\r\n"))) 12
        ≡ ok (with_header (block_of (codes "H\r\nContent-Length: 12\r\n")))
    updated = refl

-- A playlist with two tracks, at the times 100 and 3000.
abbrev pub two_tracks : SegmentPlaylist
two_tracks = record {
  resource_id = 9;
  channel_id = 8;
  remaining_fetches = 3;
  last_stamp = pos 5000;
  url = codes "/o/index.m3u8";
  track_urls = codes "one" ∷ codes "two" ∷ [];
  track_uids = 12 ∷ 13 ∷ [];
  track_stamps = pos 100 ∷ pos 3000 ∷ [];
  track_sequence = pos 4 ∷ pos 5 ∷ [];
}

abbrev pub playing : World
playing = record serving_two { playlists = update serving_two.playlists 9 (some two_tracks) }

two_tracks-IsAligned : IsAligned two_tracks
unfolding member
two_tracks-IsAligned = record {
  urls = refl;
  stamps = refl;
  numbers = refl;
  distinct = (refl, (refl, tt));
}

playing-AllAligned : AllAligned playing
playing-AllAligned =
    IsAligned-update serving_two 9 two_tracks two_tracks-IsAligned
      λ id playlist e. absurd (none_some e)
  where
    none_some : {a : SegmentPlaylist} → none ≡ some a → ⊥
    none_some e = cc

-- The list of the origin: the second track, and a new one.
abbrev content : Text
content =
    codes "#EXT-X-MEDIA-SEQUENCE:5\n#EXTINF:2.000,\nhttp://a/2.ts\n#EXTINF:2.000,\nhttp://a/33.ts\n"

abbrev pub answer : Iovec
answer = c_block content

process_segment_list-AllAligned_example :
    Holds (λ r. AllAligned r.1) (process_segment_list small (pos 1000) 9 (answer ∷ []) 1 playing)
process_segment_list-AllAligned_example =
    process_segment_list-AllAligned small (pos 1000) 9 (answer ∷ []) 1 playing playing-AllAligned

abbrev track : Text → Track
track url = record { line = codes "#EXTINF:2.000,"; url = url; duration = pos 2000 }

two_tracks-IsNext : IsNext (pos 1000) two_tracks (pos 5) (codes "two" ∷ [])
two_tracks-IsNext = record {
  past = pos 100 ∷ [];
  stamp = pos 3000;
  later = [];
  stamps = refl;
  are_past = (refl, tt);
  is_next = refl;
  gone_numbers = pos 4 ∷ [];
  more_numbers = [];
  numbers = refl;
  as_many = refl;
  gone_urls = codes "one" ∷ [];
  all_urls = refl;
  as_many_urls = refl;
}

abbrev pub listened : Mux
listened = with_header (c_block (codes "H\r\nContent-Length: 0\r\n"))

listened_reads : string_of listened.header ≡ ok (codes "H\r\nContent-Length: 0\r\n")
unfolding string_of c_str create_mux
listened_reads = refl

listened_told :
    replace_header_tag
      (codes "H\r\nContent-Length: 0\r\n")
      (codes "Content-Length")
      (to_string (length (shown (pos 5) (codes "two" ∷ []))))
    ≡ ok (codes "H\r\nContent-Length: 80\r\n")
unfolding replace_header_tag ci_find_substr to_int ci_equal search_by matches substr from_line_end
    to_string digits_of to_upper joined print_int
listened_told = refl

generate_segment_client_list-Shows_example :
    generate_segment_client_list (pos 1000) 9 listened playing
    ≡ ok (
      tt,
      record playing {
        resources = update playing.resources 9 (
            some (record listened {
              buffer = set listened.buffer 0 (block_of (shown (pos 5) (codes "two" ∷ [])));
              header = block_of (codes "H\r\nContent-Length: 80\r\n");
            }));
      },
    )
unfolding create_mux
generate_segment_client_list-Shows_example =
    generate_segment_client_list-Shows (pos 1000) 9 listened two_tracks (pos 5) (codes "two" ∷ [])
      (codes "H\r\nContent-Length: 0\r\n") (codes "H\r\nContent-Length: 80\r\n") playing
      (λ e. absurd (cons_nil e)) (omega arith) refl two_tracks-IsNext listened_reads listened_told
  where
    cons_nil : {xs : List ℕ} → 1 ∷ xs ≡ [] → ⊥
    cons_nil e = cc
