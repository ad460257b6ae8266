-- ===== src/Httpd/Accept/Total.antt =====
-- `accept_request` ends on every input: the bounds on the rounds of its loops are enough.
