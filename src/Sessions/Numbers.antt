-- ===== src/Sessions/Numbers.antt =====
-- The numbers that a listing gives to sessions.
