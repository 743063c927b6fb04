-- ===== src/Settlement/Ways.antt =====
-- Each way through a settlement gives what a settlement has.
