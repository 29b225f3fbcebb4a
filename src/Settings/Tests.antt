-- ===== src/Settings/Tests.antt =====
-- main.cpp at concrete arguments.
use cdn_uring.Prelude.{◌≡◌, refl, [], ◌∷◌}
use cdn_uring.Prelude.Int.{pos}
use cdn_uring.Prelude.Text.{codes, matches, text_eq}
use cdn_uring.Prelude.Text.Lines.{stoi_signed, skip_blanks, signed_int, unsigned_int, digits_from}
use cdn_uring.Prelude.Result.{ok}
use cdn_uring.Prelude.Holds.{Holds}
use cdn_uring.Settings.{
  initial, rooted, set_flag, set_number, set_text, parse_argument, parser_arguments, main_settings,
}
use cdn_uring.Settings.Rooted.{AreRooted, parser_arguments-AreRooted}

-- The last port counts, and a directory that is not set is below the one that the process runs in.
last_port :
    main_settings
      (codes "/srv")
      (codes "-server-port=80" ∷ codes "-server-port=8080" ∷ codes "-proxy=p.com" ∷ [])
    ≡ ok (record initial {
      server_port = pos 8080;
      proxy = codes "/p.com";
      cache_dir = codes "/srv/cache/";
    })
unfolding main_settings parser_arguments parse_argument set_number set_text set_flag rooted matches
    text_eq stoi_signed skip_blanks signed_int unsigned_int digits_from
last_port = refl

parser_arguments-AreRooted_example :
    Holds AreRooted (parser_arguments (codes "-proxy=p.com" ∷ codes "-hls" ∷ []) initial)
parser_arguments-AreRooted_example =
    parser_arguments-AreRooted (codes "-proxy=p.com" ∷ codes "-hls" ∷ []) initial (tt, tt)
