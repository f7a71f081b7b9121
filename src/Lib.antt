-- ===== src/Lib.antt =====
-- Tf, the base library of the Pixar tools: its run-length encoded bit arrays, its UTF-8 decoder,
-- its spinning locks, its dense hash containers, and its string utilities.
-- Of the parts, only the bit arrays call another: their texts use TfIntToString.
--
-- src/pxr/tf/compressedBits.h keeps a bit array as the sizes of its platforms, runs of equal bits
-- in turn, with the running bit of the first (`_platforms`, `_num`, `_runningBit`). Here it is the
-- record `CompressedBits`; `decode` is the list of Booleans that it stands for, and `IsValid` is the
-- invariant: the platforms add up to the size, which fits in 32 bits, and none is empty but the one
-- of an array of size 0. The word array behind `_platforms` is a list.
--
-- - Base: the names that every module shares, Boolean tests, lists, and wrapped words.
-- - CompressedBits/Defs: the constructors, `Complement`, `ClearAll`, `SetAll`.
-- - CompressedBits/Logical: `_Logical`, the loop over two word arrays, as steps of its local
--   variables.
-- - CompressedBits/Operators: `&=`, `|=`, `^=`, `-=`, `HasNonEmptyIntersection`,
--   `HasNonEmptyDifference`, `Contains`, `_HasLogical`, `Set`, `Clear`, `Assign`, `SetRange`.
-- - CompressedBits/Queries: `_LinearSearch` and the searches built on it, the counts, and the tests
--   on the number of platforms.
-- - CompressedBits/Canonical: `operator==`.
-- - CompressedBits/Editing: `ResizeKeepContents`, `Append`, `ShiftRight`, `ShiftLeft`.
-- - CompressedBits/Views: the iterators over all, set and unset bits and over the platforms.
-- - CompressedBits/Text: the texts of src/pxr/tf/compressedBits.cpp, with TfIntToString of
--   src/pxr/tf/stringUtils.h.
--
-- src/pxr/tf/unicodeUtils.h and src/pxr/tf/unicodeUtils.cpp read and write UTF-8. Bytes are numbers,
-- and an iterator is the list of the bytes before its end.
--
-- - Unicode: TfUtf8CodePoint (`code_point`), `operator<<` (`encode`), and the iterator
--   (`dereference`, `advance`); a loop over a view is `code_points`. The children hold the proofs.
--
-- src/pxr/tf/spinRWMutex.h and src/pxr/tf/spinRWMutex.cpp are a lock in one atomic word.
--
-- - SpinRwMutex: a step of one thread is one atomic operation on `_lockState` (`atomic`), `Step` is
--   any thread's step, and `Reachable` are the states of a lock with any number of threads. Counts,
--   Invariant, Reach and Safety hold the proofs. The memory orders and the wrap-around of `int` are
--   not modelled.
--
-- src/pxr/tf/spinMutex.h and src/pxr/tf/spinMutex.cpp are a lock in one atomic flag.
--
-- - SpinMutex: a move of one thread is one atomic operation on `_lockState` (`serve`), and `Move` is any
--   thread's move. Safety holds the proofs.
--
-- src/pxr/tf/denseHashMap.h and src/pxr/tf/denseHashSet.h keep elements in a vector (`_vector`), with
-- a hash map from keys to positions (`_h`) from a threshold on.
--
-- - DenseHash: the two fields as the record `Dense` and every operation that changes them, over an
--   element type with its key. The map has pairs and fills a table with `insert`; the set has keys
--   and fills it with `operator[]`, which is the parameter `store`. Positions stand for iterators.
--   TfHashMap, which is not part of the model, is the interface `HashIndex` in DenseHash/Index,
--   where a function from keys to positions is an instance. DenseHash/Map has the `operator[]` of the
--   map, and DenseHash/Set the functions of the set. The other children hold the proofs.
--
-- src/pxr/tf/stringUtils.h and src/pxr/tf/stringUtils.cpp work on strings, which are lists of bytes
-- here. A byte is a number, which may be zero in a std::string. TfEscapeString, TfMakeValidIdentifier and
-- TfIsValidIdentifier read `c_str()`, so they stop at a zero byte as the code does, and at the end of
-- the list. A `const char *` argument is the list of the bytes before its zero.
--
-- - Strings: `find` of std::string. Strings/Numbers: the conversions from digits to integers, whose
--   values are the library's ℤ over the native numbers; Strings/Printed has TfIntToString too.
-- - Strings/Pieces: TfStringSplit, TfStringJoin, TfStringReplace. Strings/Tokens: TfStringTokenize.
--   Strings/Quoted: TfQuotedStringTokenize, whose outcome is the vector or the error.
--   Strings/Escape: TfEscapeString; a read past the end of the string is the result none.
-- - Strings/Names: TfGetBaseName, TfGetPathName, the suffixes and trimming. Strings/Identifiers:
--   TfMakeValidIdentifier, TfIsValidIdentifier.
--
-- `size_t` is 64 bits wide; each conversion to a 32-bit word is taken modulo 2 ^ 32. The loops of
-- `_Logical` and `_HasLogical` run on fuel, the number of words of both arrays (and one more), which
-- is enough since each pass moves past a word.
-- The loops over a view of bits run on one more than the number of bits.
-- The loops of Strings run on one more than the length of the string, since each pass takes a byte
-- at least.
-- `code_points` runs on as much fuel as there are bytes, since each pass takes at least one.
-- A call of TF_VERIFY that fails posts a coding error, which is not modelled, and the code after it
-- is followed.
--
-- Not modelled: the storage of `_WordArray`, hashes, streams, the conversions from and to TfBits; the
-- character classes of Unicode, which are generated tables; the moves of scoped locks; swap, reserve
-- and the iterators of the dense containers; TfMatchedStringTokenize, TfDictionaryLessThan, the
-- conversions of case, and those of floating-point numbers, which call a vendored library; and the
-- rest of the library.
pub mod Base
pub mod CompressedBits
pub mod Unicode
pub mod SpinRwMutex
pub mod SpinMutex
pub mod DenseHash
pub mod Strings
