-- ===== src/Reply.antt =====
-- The replies of src/commands.c in the RESP protocol: the bytes that each function writes to the
-- client's socket. A write is taken to succeed and to be complete, as the code does not look.
use crimson_cache.Base.{[], ◌∷◌, ◌++◌, leb, if◌then◌else◌, length}
use crimson_cache.CString.{Bytes, codes}
use crimson_cache.Number.{ℤ, print, print_nat, snprintf}

abbrev pub crlf : Bytes
crlf = b'\r' ∷ b'\n' ∷ []

unfoldable pub reply_string : Bytes → Bytes
unfolding snprintf
reply_string str = snprintf 1024 (b'+' ∷ str ++ crlf)

unfoldable pub reply_error : Bytes → Bytes
unfolding snprintf
reply_error err = snprintf 1024 (b'-' ∷ err ++ crlf)

unfoldable pub reply_integer : ℤ → Bytes
unfolding snprintf print
reply_integer num = snprintf 32 (b':' ∷ print num ++ crlf)

-- The header, and then the text with its "\r\n", unless it is empty.
unfoldable pub reply_bulk : Bytes → Bytes
unfolding snprintf print_nat
reply_bulk str =
    snprintf 1024 (b'$' ∷ print_nat (length str) ++ crlf)
    ++ (if leb 1 (length str) then str ++ crlf else [])

unfoldable pub reply_null_bulk : Bytes
reply_null_bulk = codes "$-1" ++ crlf
