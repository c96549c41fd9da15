-- ===== src/Smtp/Mailbox.antt =====
-- LA6: the mailbox files, `store_email`, `list_emails` and `get_email`.
use mathlib.Core.Option
use cnlab_cs.Common.{
  ℕ, zero, suc, ◌-◌, Bool, true, false, Option, none, some, List, [], ◌∷◌, ◌++◌, ◌==◌,
  if◌then◌else◌, length, take, drop,
}
use cnlab_cs.Common.Int.{ℤ, pos, negsuc}
use cnlab_cs.Common.Bytes.{codes, has_prefix, c_str, newline, fgets}
use cnlab_cs.Common.Scan.{◌>>=◌, scan_word, str_eq, decimal, fits_in}

abbrev pub buffer_size : ℕ
buffer_size = 4096

abbrev pub max_email_size : ℕ
max_email_size = 4096

-- The files of the server, by name; `none`: there is no such file.
abbrev pub Files : Type 0
Files = List ℕ → Option (List ℕ)

-- `snprintf` into 256 bytes.
abbrev pub mailbox_name : List ℕ → List ℕ
mailbox_name recipient = take 255 (codes "mailbox/" ++ recipient ++ codes ".txt")

abbrev pub append_to : Files → List ℕ → List ℕ → Files
append_to files name text n =
    if str_eq n name
    then some ((elim (files name) [ none ↦ [] | some old ↦ old ]) ++ text)
    else files n

abbrev pub start_mark : List ℕ
start_mark = codes "===START_EMAIL==="

abbrev pub end_mark : List ℕ
end_mark = codes "===END_EMAIL==="

-- What the four calls of `fprintf` write.
abbrev pub email_text : (sender date message : List ℕ) → List ℕ
email_text sender date message =
    start_mark
    ++ newline
      ∷ (codes "From: "
          ++ sender
          ++ newline
            ∷ (codes "Date: " ++ date ++ newline ∷ (message ++ end_mark ++ newline ∷ newline ∷ [])))

-- `none`: the file does not open, and the call returns -1. `date` is what `strftime` gave.
unfoldable pub store_email :
    (opens : Bool) (date : List ℕ) → Files → (recipient sender message : List ℕ) → Option Files
store_email opens date files recipient sender message =
    if opens
    then some (append_to files (mailbox_name recipient) (email_text sender date message))
    else none

-- The lines that one `fgets(line, sizeof(line), file)` after the other gives, until it gives NULL. A line
-- has a byte at least, so that the length of the file is enough fuel.
unfoldable pub lines_loop : (fuel : ℕ) → List ℕ → List (List ℕ)
unfolding fgets
lines_loop zero file = []
lines_loop (suc fuel) file = elim (fgets buffer_size file) [
  | none ↦ []
  | some (line, rest) ↦ line ∷ lines_loop fuel rest
]

unfoldable pub file_lines : List ℕ → List (List ℕ)
unfolding lines_loop
file_lines file = lines_loop (length file) file

-- An `fgets` whose result is not looked at: at the end of the file the array keeps the last line.
abbrev pub next_line : List ℕ → List (List ℕ) → List ℕ × List (List ℕ)
next_line line [] = (line, [])
next_line line (l ∷ ls) = (l, ls)

-- `strcat` to an array of MAX_EMAIL_SIZE bytes.
abbrev pub strcat : List ℕ → List ℕ → Option (List ℕ)
strcat content line = fits_in max_email_size (content ++ c_str line)

-- The body of a message, up to its end mark.
unfoldable pub copy_body : List ℕ → List (List ℕ) → Option (List ℕ)
copy_body content [] = some content
copy_body content (l ∷ ls) = elim (has_prefix end_mark l) [
  | true ↦ some content
  | false ↦ elim (strcat content l) [ none ↦ none | some longer ↦ copy_body longer ls ]
]

-- The lines From and Date, and the body.
unfoldable pub copy_email : List ℕ → List (List ℕ) → Option (List ℕ)
unfolding copy_body
copy_email line ls = do
  let (from, ls1) = next_line line ls
  let (date, ls2) = next_line from ls1
  content ← strcat [] from
  content2 ← strcat content date
  copy_body content2 ls2

abbrev pub is_id : ℕ → ℤ → Bool
is_id n (pos m) = n == m
is_id n (negsuc m) = false

-- The outer loop: `none` is an overflow of `email_content`, `some none` is `found == 0`.
unfoldable pub find_email : (id : ℤ) (current_id : ℕ) → List (List ℕ) → Option (Option (List ℕ))
unfolding copy_email
find_email id current_id [] = some none
find_email id current_id (l ∷ ls) = elim (has_prefix start_mark l) [
  | false ↦ find_email id current_id ls
  | true ↦ elim (is_id (suc current_id) id) [
    | true ↦ Option.map some (copy_email l ls)
    | false ↦ find_email id (suc current_id) ls
  ]
]

-- `s[strlen(s) - 1] = '\0'`: on the empty string a write in front of the array.
abbrev pub chop : List ℕ → Option (List ℕ)
chop [] = none
chop (c ∷ []) = some []
chop (c ∷ d ∷ s) = Option.map (◌∷◌ c) (chop (d ∷ s))

-- A call of `send_response`: the code and the text. `none` is a write outside of an array.
abbrev pub Response : Type 0
Response = Option (ℕ × List ℕ)

-- What `send_response` puts into 4096 bytes and sends.
unfoldable pub response_bytes : (code : ℕ) (message : List ℕ) → List ℕ
unfolding decimal
response_bytes code message = take (buffer_size - 1) (decimal code ++ 32 ∷ message)

-- The bytes that reach the client.
abbrev pub send_reply : Response → Option (List ℕ)
send_reply none = none
send_reply (some (code, message)) = some (response_bytes code message)

abbrev pub with_ok : List ℕ → Option (List ℕ)
with_ok s = Option.map (λ t. codes "OK" ++ newline ∷ t) (chop s)

unfoldable pub get_email : Files → (recipient : List ℕ) (id : ℤ) → Response
unfolding find_email file_lines
get_email files recipient id = elim (files (mailbox_name recipient)) [
  | none ↦ some (401, codes "Requested email does not exist")
  | some file ↦ elim (find_email id 0 (file_lines file)) [
    | none ↦ none
    | some none ↦ some (401, codes "Email not found")
    | some (some content) ↦ Option.map (λ t. (200, t)) (with_ok content)
  ]
]

-- `sscanf(line, "<label> %s", field)` with an array of `size` bytes that was empty.
abbrev pub scan_field : (label : List ℕ) (size : ℕ) (line : List ℕ) → Option (List ℕ)
scan_field label size line =
    if has_prefix label line
    then elim (scan_word (drop (length label) (c_str line))) [
      | none ↦ some []
      | some (w, rest) ↦ fits_in size w
    ]
    else some []

abbrev pub list_entry : (id : ℕ) (from date : List ℕ) → List ℕ
list_entry id from date =
    take 199 (
      decimal id
      ++ codes ": Email from "
      ++ from
      ++ codes " ("
      ++ date
      ++ codes ")"
      ++ newline ∷ [])

-- One message: its fields from the two lines, and `strcat` to `email_list`.
unfoldable pub add_entry : (id : ℕ) (from_line date_line email_list : List ℕ) → Option (List ℕ)
unfolding decimal
add_entry id from_line date_line email_list = do
  from ← scan_field (codes "From:") 100 from_line
  date ← scan_field (codes "Date:") 20 date_line
  fits_in max_email_size (email_list ++ list_entry id from date)

-- The loop of `list_emails`.
unfoldable pub list_loop : (id : ℕ) → List (List ℕ) → List ℕ → Option (List ℕ)
unfolding add_entry
list_loop id [] email_list = some email_list
list_loop id (l ∷ []) email_list =
    if has_prefix start_mark l then add_entry id l l email_list else some email_list
list_loop id (l ∷ f ∷ []) email_list = elim (has_prefix start_mark l) [
  | true ↦ add_entry id f f email_list
  | false ↦ list_loop id (f ∷ []) email_list
]
list_loop id (l ∷ f ∷ d ∷ ls) email_list = elim (has_prefix start_mark l) [
  | true ↦ elim (add_entry id f d email_list) [
    | none ↦ none
    | some longer ↦ list_loop (suc id) ls longer
  ]
  | false ↦ list_loop id (f ∷ d ∷ ls) email_list
]

unfoldable pub list_emails : Files → (recipient : List ℕ) → Response
unfolding list_loop file_lines
list_emails files recipient = elim (files (mailbox_name recipient)) [
  | none ↦ some (401, codes "Requested email does not exist")
  | some file ↦ do
    email_list ← list_loop 1 (file_lines file) []
    Option.map (λ t. (200, t)) (with_ok email_list)
]
