-- ===== src/Str/EndsWith.antt =====
-- `str_ends_with` against the texts.
