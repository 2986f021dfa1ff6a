-- ===== src/Tests/Config.antt =====
-- The configuration of a small file.
use batyr.Prelude.{
  ◌≡◌, refl, arith, ◌==◌, if◌then◌else◌, map, [], ◌∷◌, List, All, Option, none, some, true, false,
  Text, codes, text_eq, text_lt,
}
use batyr.Ini.{parse_lines, Level, new_level, Store, Parser, new_parser, done, runtime_error}
use batyr.Ini.Ends.{Ends}
use batyr.Ini.Tree.{IsParser}
use batyr.Ini.Levels.{parse-IsParser}
use batyr.Ini.Lines.{Entry, print}
use batyr.Ini.Lines.Read.{IsRead, parse_lines-print}
use batyr.Config.{Configuration, new_layer, error}
use batyr.Config.Parse.{new_configuration, read_levels, parse}
use batyr.Config.Valid.{IsAccepted, parse-IsAccepted}
use batyr.Server.{CommandOption, configfile, exit_ok, program}
use batyr.Server.Served.{Safe, IsServed, program-IsServed}
use batyr.Config.Known.{IsKnownSection, read_levels-IsKnownSection}

abbrev lines : List Text
lines =
    codes "; the server"
    ∷ codes "[HTTP]"
    ∷ codes " port = 8090 "
    ∷ []
    ∷ codes "[MAIN]"
    ∷ codes "dsn = 'dbname=x'"
    ∷ codes "num_worker_threads=3"
    ∷ codes "[LAYERS]"
    ∷ codes "[[roads]]"
    ∷ codes "source=roads.shp"
    ∷ codes "source_layer=roads"
    ∷ codes "target_table_schema=public"
    ∷ codes "target_table_name=roads"
    ∷ codes "filter=a = 1"
    ∷ codes "+ and b = 2"
    ∷ codes "[LOGGING]"
    ∷ codes "loglevel=ERROR"
    ∷ []

abbrev expected : Configuration
expected = record new_configuration {
  layers =
      (
        codes "roads",
        record (new_layer (codes "roads")) {
          source = codes "roads.shp";
          source_layer = codes "roads";
          target_table_schema = codes "public";
          target_table_name = codes "roads";
          filter = codes "a = 1\n and b = 2";
        },
      )
      ∷ [];
  http_port = 8090;
  num_worker_threads = 3;
  db_connection_string = codes "dbname=x";
  loglevel = error;
}

parsed : parse (codes "batyrd.cfg") (some lines) ≡ done expected
unfolding parse batyr.Ini.parse batyr.Strings.trim batyr.Strings.find_last_not_of
    batyr.Prelude.has_char batyr.Strings.find_first_not_of batyr.Maps.lookup batyr.Ini.write
    batyr.Strings.find batyr.Maps.insert text_eq text_lt batyr.Config.Settings.for_each
    batyr.Config.Settings.http_setting batyr.Config.Settings.value_to_int batyr.Numbers.stoi
    batyr.Config.Layers.layer_section batyr.Config.Settings.logging_setting batyr.Strings.tolower
    batyr.Config.Settings.main_setting batyr.Config.Settings.want_positive
    batyr.Config.Settings.want_int
parsed = refl

parse-IsAccepted_example : Ends IsAccepted (parse (codes "batyrd.cfg") (some lines))
parse-IsAccepted_example = parse-IsAccepted (codes "batyrd.cfg") (some lines)

parse-IsParser_example : Ends IsParser (batyr.Ini.parse lines)
parse-IsParser_example = parse-IsParser lines

-- A parser that has read a section with a connection string.
abbrev read_dsn : Parser
read_dsn = record new_parser {
  store = record {
    next = 2;
    level = λ a. record new_level {
      values = if a == 1 then (codes "dsn", codes "x") ∷ [] else [];
      sections = if a == 0 then (codes "MAIN", 1) ∷ [] else [];
    };
  };
}

-- A setting of the top level, one directly in LAYERS and one in a section of MAIN that the program
-- does not know change nothing.
abbrev unread : Parser
unread = record new_parser {
  store = record {
    next = 4;
    level = λ a. record new_level {
      values = if a == 1 then (codes "dsn", codes "x") ∷ [] else (codes "unknown", codes "y") ∷ [];
      sections =
          if a == 0
          then (codes "MAIN", 1) ∷ (codes "LAYERS", 2) ∷ []
          else if a == 1
          then (codes "nested", 3) ∷ []
          else [];
    };
  };
}

reads_unread :
    read_levels unread ≡ done (record new_configuration { db_connection_string = codes "x" })
unfolding read_levels batyr.Config.Settings.for_each text_eq batyr.Config.Settings.main_setting
    batyr.Strings.trim batyr.Strings.find_last_not_of batyr.Prelude.has_char
    batyr.Strings.find_first_not_of
reads_unread = refl

read_levels-IsKnownSection_example :
    All (IsKnownSection read_dsn.store.level) ((codes "MAIN", 1) ∷ [])
unfolding read_levels batyr.Config.Settings.for_each text_eq batyr.Config.Settings.main_setting
    batyr.Strings.trim batyr.Strings.find_last_not_of batyr.Prelude.has_char
    batyr.Strings.find_first_not_of
read_levels-IsKnownSection_example =
    read_levels-IsKnownSection read_dsn
      (record new_configuration { db_connection_string = codes "x" }) refl

abbrev entries : List Entry
entries =
    record {
      key = codes "dsn";
      value = codes "x = y";
      indent = codes " ";
      before = [];
      behind = codes "  ";
      trailing = [];
    }
    ∷ record {
      key = codes "a b";
      value = codes "1";
      indent = [];
      before = codes " ";
      behind = [];
      trailing = codes " ";
    }
    ∷ []

parse_lines-print_example :
    (q : Parser) × (parse_lines (map print entries) new_parser ≡ done q)
    × IsRead entries new_parser q
unfolding batyr.Prelude.has_char batyr.Maps.lookup batyr.Maps.insert text_eq text_lt
parse_lines-print_example =
    parse_lines-print entries new_parser
      (
        record {
          clean_key = record {
            head = b'd';
            rest = codes "sn";
            begins = refl;
            head_kept = refl;
            front = codes "ds";
            last = b'n';
            ends = refl;
            last_kept = refl;
          };
          clean_value = record {
            head = b'x';
            rest = codes " = y";
            begins = refl;
            head_kept = refl;
            front = codes "x = ";
            last = b'y';
            ends = refl;
            last_kept = refl;
          };
          plain = (refl, (refl, (refl, tt)));
          unmarked = refl;
          indent_blank = (refl, tt);
          before_blank = tt;
          behind_blank = (refl, (refl, tt));
          trailing_blank = tt;
          short = omega arith;
        },
        (
          record {
            clean_key = record {
              head = b'a';
              rest = codes " b";
              begins = refl;
              head_kept = refl;
              front = codes "a ";
              last = b'b';
              ends = refl;
              last_kept = refl;
            };
            clean_value = record {
              head = b'1';
              rest = [];
              begins = refl;
              head_kept = refl;
              front = [];
              last = b'1';
              ends = refl;
              last_kept = refl;
            };
            plain = (refl, (refl, (refl, tt)));
            unmarked = refl;
            indent_blank = tt;
            before_blank = (refl, tt);
            behind_blank = tt;
            trailing_blank = (refl, tt);
            short = omega arith;
          },
          tt,
        ),
      )
      (refl, (refl, tt))

abbrev given : List CommandOption
given = configfile (codes "batyrd.cfg") ∷ []

runs :
    program (λ name. some lines) (λ name. false) (λ c. true) given
    ≡ some (record { code = exit_ok; served = some expected })
unfolding parse batyr.Ini.parse batyr.Strings.trim batyr.Strings.find_last_not_of
    batyr.Prelude.has_char batyr.Strings.find_first_not_of batyr.Maps.lookup batyr.Ini.write
    batyr.Strings.find batyr.Maps.insert text_eq text_lt batyr.Config.Settings.for_each
    batyr.Config.Settings.http_setting batyr.Config.Settings.value_to_int batyr.Numbers.stoi
    batyr.Config.Layers.layer_section batyr.Config.Settings.logging_setting batyr.Strings.tolower
    batyr.Config.Settings.main_setting batyr.Config.Settings.want_positive
    batyr.Config.Settings.want_int program
runs = refl

program-IsServed_example :
    Safe
      (IsServed (λ name. false) (λ c. true))
      (program (λ name. some lines) (λ name. false) (λ c. true) given)
program-IsServed_example = program-IsServed (λ name. false) (λ c. true) (λ name. some lines) given
