-- ===== src/Tests/ConfigTests.antt =====
-- Lines of configuration files.
use drgb_server.Prelude.{ℕ, ◌≡◌, refl, List, [], ◌∷◌, ok, err}
use drgb_server.Encoder.{codes}
use drgb_server.ConfigParser.{
  read_line, read_file, get_string, split, trim, trim_front, trim_end, kept, check_line, check_from,
  check_step, is_line, delete_comment, cut_at, unquoted, stored, insert, find, same_text,
  out_of_range,
}
use drgb_server.ConfigParser.Line.{written, get_string-read_line}

-- A value without quotes, with blanks around the key and the value, and a comment.
plain_line :
    read_line (codes "  Round_Time =  2000 # ms") [] ≡ ok ((codes "Round_Time", codes "2000") ∷ [])
unfolding read_line split trim trim_front trim_end kept check_line check_from check_step is_line
    delete_comment cut_at unquoted stored insert find same_text
plain_line = refl

-- The first value of a key stays.
first_stays :
    read_file (codes "a=1" ∷ codes "a=2" ∷ codes "b" ∷ []) [] ≡ ok ((codes "a", codes "1") ∷ [])
unfolding read_file read_line split trim trim_front trim_end kept check_line check_from check_step
    is_line delete_comment cut_at unquoted stored insert find same_text
first_stays = refl

-- An `=` in the quotes of a key passes `check_line`, and `split` cuts there: the call throws.
equal_in_key : read_line (codes "'a=b'=c") [] ≡ err out_of_range
unfolding read_line split trim trim_front trim_end kept check_line check_from check_step is_line
    delete_comment cut_at unquoted stored insert find same_text
equal_in_key = refl

get_string-read_line_example :
    (dict' : List (List ℕ × List ℕ)) × (read_line
        (written (codes "Addr") (codes "a = b") (codes "# host"))
        []
      ≡ ok dict')
    × (get_string (codes "Addr") [] dict' ≡ codes "a = b")
unfolding find delete_comment trim_end kept
get_string-read_line_example =
    get_string-read_line 0x41 (codes "ddr") (codes "a = b") (codes "# host") [] [] refl refl
      ((refl, refl, refl), ((refl, refl, refl), ((refl, refl, refl), ((refl, refl, refl), tt))))
      ((refl, refl), ((refl, refl), ((refl, refl), ((refl, refl), ((refl, refl), tt))))) refl refl
