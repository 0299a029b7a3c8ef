-- ===== src/LineFile/Program.antt =====
-- The writers of studios/studio16. A file and an argument are lists of bytes, and `argv` is without
-- the program's name. The writes of the C library and of the kernel are taken to write all bytes.
use cse422_archive.Base.{
  ℕ, zero, suc, ◌+◌, ◌/◌, ◌%◌, Option, none, some, List, [], ◌∷◌, ◌++◌, ltb, if◌then◌else◌, length,
  take, drop,
}

abbrev pub Bytes : Type 0
Bytes = List ℕ

abbrev pub space : ℕ
space = 32

abbrev pub newline : ℕ
newline = 10

-- How a writer ends: the usage line, a crash on a null `FILE *`, no file, or the file's contents.
pub data Written : Type 0 where
  usage crashed no_file : Written
  wrote : Bytes → Written

-- `fprintf(fd, "%s\n", argv[i])` for each argument.
unfoldable pub print_lines : List Bytes → Bytes → Bytes
print_lines [] file = file
print_lines (a ∷ args) file = print_lines args (file ++ (a ++ newline ∷ []))

-- `fputs(argv[i], fd); fputs("\n", fd)` for each argument.
unfoldable pub put_lines : List Bytes → Bytes → Bytes
put_lines [] file = file
put_lines (a ∷ args) file = put_lines args ((file ++ a) ++ newline ∷ [])

-- `fprintf(fp, "%s ", argv[i])` for each argument.
unfoldable pub print_words : List Bytes → Bytes → Bytes
print_words [] file = file
print_words (a ∷ args) file = print_words args (file ++ (a ++ space ∷ []))

-- `write` at an offset within the file: it overwrites what is there.
unfoldable pub write_at : ℕ → Bytes → Bytes → Bytes
write_at offset bytes file = take offset file ++ (bytes ++ drop (offset + length bytes) file)

-- `write(fd, argv[i], strlen(argv[i])); write(fd, newline, 1)` for each argument.
unfoldable pub write_lines : List Bytes → ℕ → Bytes → Bytes
write_lines [] offset file = file
write_lines (a ∷ args) offset file =
    let file' = write_at offset a file in
    let file'' = write_at (offset + length a) (newline ∷ []) file' in
    write_lines args (offset + length a + 1) file''

abbrev pub rest_of : List Bytes → List Bytes
rest_of [] = []
rest_of (a ∷ args) = args

-- The mode "w" empties the file. `none` stands for a file that cannot be opened.
unfoldable pub writefile : List Bytes → Option Bytes → Written
writefile argv none = if ltb (length argv) 2 then usage else crashed
writefile argv (some old) =
    if ltb (length argv) 2 then usage else wrote (print_lines (rest_of argv) [])

unfoldable pub writefile_fputs : List Bytes → Option Bytes → Written
writefile_fputs argv none = if ltb (length argv) 2 then usage else crashed
writefile_fputs argv (some old) =
    if ltb (length argv) 2 then usage else wrote (put_lines (rest_of argv) [])

-- `open` with O_WRONLY | O_CREAT keeps the old contents. On a descriptor of -1 the writes fail.
unfoldable pub writefile_sys : List Bytes → Option Bytes → Written
writefile_sys argv none = if ltb (length argv) 2 then usage else no_file
writefile_sys argv (some old) =
    if ltb (length argv) 2 then usage else wrote (write_lines (rest_of argv) 0 old)

unfoldable pub appendfile : List Bytes → Option Bytes → Written
appendfile argv none = if ltb (length argv) 2 then usage else crashed
appendfile argv (some old) =
    if ltb (length argv) 2 then usage else wrote (print_words (rest_of argv) old ++ newline ∷ [])

-- `%lu`, with fuel for the digits.
unfoldable pub decimal_digits : ℕ → ℕ → Bytes
decimal_digits zero n = []
decimal_digits (suc fuel) n =
    let more = decimal_digits fuel (n / 10) in
    if ltb n 10 then (b'0' + n) ∷ [] else more ++ (b'0' + n % 10) ∷ []

abbrev pub decimal : ℕ → Bytes
decimal n = decimal_digits (n + 1) n

-- The loop that adds up `strlen(argv[i])+1`, and the newline.
unfoldable pub write_length : ℕ → List Bytes → ℕ → ℕ
write_length ulong_mod [] len = (len + 1) % ulong_mod
write_length ulong_mod (a ∷ args) len =
    write_length ulong_mod args ((len + (length a + 1)) % ulong_mod)

unfoldable pub appendfile_count : ℕ → List Bytes → Option Bytes → Written
appendfile_count ulong_mod argv none = if ltb (length argv) 2 then usage else crashed
appendfile_count ulong_mod argv (some old) =
    let words = rest_of argv in
    let len = write_length ulong_mod words 0 in
    if ltb (length argv) 2
    then usage
    else wrote (print_words words (old ++ (decimal len ++ space ∷ [])) ++ newline ∷ [])
