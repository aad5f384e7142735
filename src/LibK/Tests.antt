-- ===== src/LibK/Tests.antt =====
-- Examples of the memory and string functions.
use khazaros.Base.{◌%◌, refl, arith, ◌==◌, if◌then◌else◌}
use khazaros.LibK.Memory.{Bytes}
use khazaros.LibK.Copy.{AreBytes}
use khazaros.LibK.Text.{Chars}
use khazaros.LibK.Compare.{HasLength}

-- each byte is the low byte of its address
abbrev memory : Bytes
memory a = a % 256

memory-AreBytes : AreBytes memory
memory-AreBytes a = omega arith

-- "aa"
abbrev word : Chars
word i = if i == 2 then 0 else 97

word-AreBytes : AreBytes word
word-AreBytes i = ground arith

word-HasLength : HasLength word 2
word-HasLength = record { ends = refl; before = λ k lt. ground arith }
