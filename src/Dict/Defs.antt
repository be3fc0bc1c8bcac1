-- ===== src/Dict/Defs.antt =====
-- The data of src/dict.h. A pointer that the program never lets be NULL is the value it points to.
use crimson_cache.Base.{ℕ, List, [], get_or}
use crimson_cache.CString.{Bytes}
use crimson_cache.Dict.Hash.{index}

-- `cc_type`
pub data CcType : Type 0 where
  cc_string cc_list cc_set cc_int cc_float cc_bool : CcType

-- `cc_obj`: `ptr` is the text that the pointer leads to
pub record CcObj : Type 0 where
  pub ptr : Bytes
  pub type : CcType
  pub expire : ℕ
  pub size : ℕ
  pub last_access : ℕ

-- `dict_entry`; the list that it stands in takes the place of `next`
pub record DictEntry : Type 0 where
  pub key : Bytes
  pub val : CcObj

abbrev pub Chain : Type 0
Chain = List DictEntry

-- `dict`
pub record Dict : Type 0 where
  pub table : List Chain
  pub size : ℕ
  pub used : ℕ
  pub mask : ℕ
  pub max_memory : ℕ
  pub used_memory : ℕ

-- The bucket of a key.
abbrev pub bucket : Dict → Bytes → Chain
bucket d key = get_or d.table (index key d.mask) []
