-- ===== src/Words/Transfer.antt =====
-- LA2: that a file of words arrives whole, and with how many rounds.
